-- ===== src/Eterra/Safety/Moves.antt =====
-- `play`, `play_from_hand`, `force_finish_turn` and the AI's turn, of pallets/eterra/src/lib.rs.
use eterra_polkadot_sdk_solo.Prelude.{
  ℕ, ◌⊎◌, ◌≡◌, refl, ◌==◌, ltb, if◌then◌else◌, true, false, Option, none, some, is_some, get_elem?,
  inl, inr, Option-cases, length, ◌<◌, List, ltb→lt, get_elem?-ne-none, contains, leb,
  saturating_add, u32_max,
}
use eterra_polkadot_sdk_solo.Prelude.Results.{Result, ok, or_panic, ◌>>=◌, Origin}
use eterra_polkadot_sdk_solo.Prelude.Ensures.{
  Ensures, Ensures-bind, ensure-bind, if-Ensures, ok_or-bind, signed-bind,
}
use eterra_polkadot_sdk_solo.Eterra.Types.{
  next_turn, AccountId, GameId, Game, Move, HandEntry, Error, hand_index_out_of_range,
  card_already_used, player_not_in_game, current_player_cannot_force_finish_turn,
  blocks_to_play_limit_not_passed,
}
use eterra_polkadot_sdk_solo.Prelude.Panics.{Returns-eq}
use eterra_polkadot_sdk_solo.MonteCarlo.{suggest}
use eterra_polkadot_sdk_solo.MonteCarlo.Adapter.{card_game}
use eterra_polkadot_sdk_solo.MonteCarlo.CardGame.{card_game-Lawful}
use eterra_polkadot_sdk_solo.MonteCarlo.Search.{suggest-Suggests}
use eterra_polkadot_sdk_solo.MonteCarlo.AiHands.{state_of-Valid}
use eterra_polkadot_sdk_solo.AiAdapter.Types.{Action}
use eterra_polkadot_sdk_solo.Eterra.Store.{Store, Env, is_pve, is_game_won}
use eterra_polkadot_sdk_solo.Eterra.Ai.{
  resolve_move, ai_place, ai_play, ai_follow, state_of, maybe_ai_take_turn, let_ai_play,
  build_ai_state, move_of,
}
use eterra_polkadot_sdk_solo.Eterra.Play.{play, play_from_hand, force_finish_turn}
use eterra_polkadot_sdk_solo.Eterra.Invariant.{
  IsValid, Inv, Keeps, Keeps-IsValid, resolve_move-Keeps, next_turn-Keeps, put_game-Inv,
  put_hand-Inv, deposit_event-Inv, end_game-Ensures,
}
use eterra_polkadot_sdk_solo.Eterra.Safety.Guards.{
  turn-bind, validate_player_turn-bind, validate_cell-bind, index-bind,
  get_current_player_index-Ensures, is_game_won-Ensures,
}

timed :
    (g : Game) (env : Env) → Keeps g (record (next_turn g) { last_played_block = env.block_number })
timed g env =
    let k = next_turn-Keeps g in
    record { players = k.players; state = k.state; turn = k.turn; fits = k.fits }

-- Reading the verdict of `is_game_won`, and acting on it.
verdict-bind :
    (id : GameId) (g : Game) (s : Store) (f : Option (Option AccountId) → Result Error Store)
    → IsValid g
    → Ensures Inv (f none)
    → ((w : Option AccountId) → Ensures Inv (f (some w)))
    → Ensures Inv (is_game_won id g s >>= f)
verdict-bind id g s f v go_on over =
    Ensures-bind (λ _. Unit {0}) Inv (is_game_won id g s) f (is_game_won-Ensures id g s v)
      λ o _. split o
  where
    split : (o : Option (Option AccountId)) → Ensures Inv (f o)
    split none = go_on
    split (some w) = over w

ai_place-Ensures :
    (env : Env) (id : GameId) (g : Game) (hand : List HandEntry) (h : HandEntry) (a : Action)
    (s : Store)
    → s.game_storage id ≡ some g
    → Inv s
    → Ensures Inv (ai_place env id g hand h a s)
unfolding ai_place
ai_place-Ensures env id g hand h a s e v =
    Ensures-bind (λ ix. ix < 2) Inv _ _ (get_current_player_index-Ensures g env.ai_account valid)
      λ ix _.
        let k = resolve_move-Keeps env (move_of h a.x a.y) ix g in
        let w = Keeps-IsValid g _ k valid in
        turn-bind Inv _ _ w λ next _.
          let i =
            put_game-Inv id g _ _ e k
              (deposit_event-Inv _ _ (put_hand-Inv id env.ai_account _ s v)) in
          verdict-bind id _ _ _ w (deposit_event-Inv _ _ i) (λ o. end_game-Ensures id o _ i)
  where
    valid : IsValid g
    valid = v.games id g e

ai_play-Ensures :
    (env : Env) (id : GameId) (g : Game) (a : Action) (s : Store)
    → s.game_storage id ≡ some g
    → Inv s
    → Ensures Inv (ai_play env id g a s)
unfolding ai_play
ai_play-Ensures env id g a s e v = elim (Option-cases (s.hands_of_game id env.ai_account)) [
  | inl none_yet ↦ rw (none_yet, ai_play) v
  | inr (hand, has_hand) ↦ elim (Option-cases (get_elem? hand a.hand_index)) [
    | inl outside ↦ rw (has_hand, ai_play, outside) v
    | inr (h, inside) ↦
        rw (has_hand, ai_play, inside)
          (if-Ensures Inv h.used _ _ (λ _. v)
            (λ _.
              if-Ensures Inv (ltb a.x 4) _ _
                (λ _.
                  if-Ensures Inv (ltb a.y 4) _ _
                    (λ _.
                      if-Ensures Inv (is_some (g.board a.x a.y)) _ _ (λ _. v)
                        (λ _. ai_place-Ensures env id g hand h a s e v))
                    (λ _. v))
                (λ _. v)))
  ]
]

-- What the search suggests is followed.
ai_follow-Ensures :
    (env : Env) (id : GameId) (g : Game) (o : Option Action) (s : Store)
    → s.game_storage id ≡ some g
    → Inv s
    → Ensures Inv (ai_follow env id g o s)
unfolding ai_follow
ai_follow-Ensures env id g none s e v = v
ai_follow-Ensures env id g (some a) s e v = ai_play-Ensures env id g a s e v

-- On the position of a stored game, whatever the hands, the search does not panic.
search-bind :
    (env : Env) (id : GameId) (g : Game) (e0 e1 : List HandEntry) (s : Store)
    → s.game_storage id ≡ some g
    → Inv s
    → Ensures Inv (
        or_panic (suggest card_game env.search (state_of g e0 e1) env.ai_difficulty env.nonce)
        >>= λ found. ai_follow env id g found.0 s)
search-bind env id g e0 e1 s e v =
    let (low, high) = v.fits id g e in
    let (r, told, _) =
      Returns-eq _ (suggest card_game env.search (state_of g e0 e1) env.ai_difficulty env.nonce) (
        suggest-Suggests card_game env.search card_game-Lawful (state_of g e0 e1) env.ai_difficulty
          env.nonce (state_of-Valid g e0 e1 (v.games id g e).turn low high)) in
    rw told (ai_follow-Ensures env id g r.0 s e v)

-- `build_ai_state` makes nothing, or the position with the hands of the players.
build_ai_state-cases :
    (id : GameId) (g : Game) (s : Store)
    → IsValid g
    → (build_ai_state id g s ≡ none)
      ⊎ ((e0 e1 : List HandEntry) × (build_ai_state id g s ≡ some (state_of g e0 e1)))
unfolding build_ai_state
build_ai_state-cases id g s w = elim (Option-cases (s.hands_of_game id w.first)) [
  | inl none_yet ↦ inl (rw (w.seats, none_yet) refl)
  | inr (hand0, has0) ↦ elim (Option-cases (s.hands_of_game id w.second)) [
    | inl none_yet ↦ inl (rw (w.seats, has0, none_yet) refl)
    | inr (hand1, has1) ↦ inr (hand0, hand1, rw (w.seats, has0, has1) refl)
  ]
]

-- The AI's turn on the stored game, on the position that `build_ai_state` has made of it.
built-bind :
    (env : Env) (id : GameId) (g : Game) (s : Store)
    → s.game_storage id ≡ some g
    → Inv s
    → Ensures Inv (elim (build_ai_state id g s) [
      | none ↦ ok s
      | some state ↦
          or_panic (suggest card_game env.search state env.ai_difficulty env.nonce) >>= λ found.
          ai_follow env id g found.0 s
    ])
built-bind env id g s e v = elim (build_ai_state-cases id g s (v.games id g e)) [
  | inl nothing ↦ rw nothing v
  | inr (hand0, hand1, made) ↦ rw made (search-bind env id g hand0 hand1 s e v)
]

-- The AI's turn on the stored game does not panic, and keeps the invariant.
pub let_ai_play-Ensures :
    (env : Env) (id : GameId) (s : Store) → Inv s → Ensures Inv (let_ai_play env id s)
unfolding let_ai_play maybe_ai_take_turn
let_ai_play-Ensures env id s v =
    if-Ensures Inv (is_pve (s.game_modes id)) _ _ (λ _. stored (s.game_storage id) refl) (λ _. v)
  where
    turn : (g : Game) → s.game_storage id ≡ some g → Ensures Inv (maybe_ai_take_turn env id g s)
    turn g e =
        if-Ensures Inv (is_pve (s.game_modes id)) _ _
          (λ _. turn-bind Inv g _ (v.games id g e) λ a _.
            if-Ensures Inv (a == env.ai_account) _ _ (λ _. built-bind env id g s e v) (λ _. v))
          (λ _. v)

    stored :
        (o : Option Game)
        → s.game_storage id ≡ o
        → Ensures Inv (elim o [ none ↦ ok s | some g ↦ maybe_ai_take_turn env id g s ])
    stored none e = v
    stored (some g) e = turn g e

-- After a move of the player whose turn it was.
settled-bind :
    (env : Env) (id : GameId) (g : Game) (mv : Move) (ix : ℕ) (f : AccountId → Result Error Store)
    → IsValid g
    → ((next : AccountId) → IsValid (resolve_move env mv ix g) → Ensures Inv (f next))
    → let g' = resolve_move env mv ix g in
      Ensures Inv (or_panic (get_elem? g'.players g'.player_turn) >>= f)
settled-bind env id g mv ix f v h =
    let w = Keeps-IsValid g _ (resolve_move-Keeps env mv ix g) v in
    turn-bind Inv _ f w λ next _. h next w

-- `play` does not panic, and keeps the invariant.
pub play-Ensures :
    (env : Env) (origin : Origin) (id : GameId) (mv : Move) (s : Store)
    → Inv s
    → Ensures Inv (play env origin id mv s)
unfolding play
play-Ensures env origin id mv s v = signed-bind Inv origin _ λ who _.
    ok_or-bind Inv (s.game_storage id) _ _ λ g e.
      let valid = v.games id g e in
      validate_player_turn-bind Inv g who _ valid λ _.
        validate_cell-bind Inv g mv.place_index_x mv.place_index_y _ λ _ _ _.
          index-bind Inv g who _ valid λ ix _. settled-bind env id g mv ix _ valid λ next w.
            let i =
              put_game-Inv id g _ _ e (resolve_move-Keeps env mv ix g) (deposit_event-Inv _ s v) in
            verdict-bind id _ _ _ w (let_ai_play-Ensures env id _ (deposit_event-Inv _ _ i))
              (λ o. end_game-Ensures id o _ i)

-- An entry below the length of a hand can be read.
entry-bind :
    (hand : List HandEntry) (i : ℕ) (f : HandEntry → Result Error Store)
    → ltb i (length hand) ≡ true
    → ((h : HandEntry) → get_elem? hand i ≡ some h → Ensures Inv (f h))
    → Ensures Inv (or_panic (get_elem? hand i) >>= f)
entry-bind hand i f lt k = elim (Option-cases (get_elem? hand i)) [
  | inl missing ↦ absurd (get_elem?-ne-none hand i (ltb→lt i (length hand) lt) missing)
  | inr (h, found) ↦ rw found (k h found)
]

-- `play_from_hand` does not panic, and keeps the invariant.
pub play_from_hand-Ensures :
    (env : Env) (origin : Origin) (id : GameId) (hand_index x y : ℕ) (s : Store)
    → Inv s
    → Ensures Inv (play_from_hand env origin id hand_index x y s)
unfolding play_from_hand
play_from_hand-Ensures env origin id hand_index x y s v = signed-bind Inv origin _ λ who _.
    ok_or-bind Inv (s.game_storage id) _ _ λ g e.
      let valid = v.games id g e in
      validate_player_turn-bind Inv g who _ valid λ _. validate_cell-bind Inv g x y _ λ _ _ _.
        ok_or-bind Inv (s.hands_of_game id who) _ _ λ hand _.
          ensure-bind Inv (ltb hand_index (length hand)) hand_index_out_of_range _ λ inside.
            entry-bind hand hand_index _ inside λ h _.
              ensure-bind Inv (if h.used then false else true) card_already_used _ λ _.
                index-bind Inv g who _ valid λ ix _.
                  settled-bind env id g (move_of h x y) ix _ valid λ next w.
                    let i = deposit_event-Inv _ _ (
                      put_game-Inv id g _ _ e (resolve_move-Keeps env (move_of h x y) ix g)
                        (deposit_event-Inv _ _ (put_hand-Inv id who _ s v))) in
                    verdict-bind id _ _ _ w (let_ai_play-Ensures env id _ i)
                      (λ o. end_game-Ensures id o _ i)

-- `force_finish_turn` does not panic, and keeps the invariant.
pub force_finish_turn-Ensures :
    (env : Env) (origin : Origin) (id : GameId) (s : Store)
    → Inv s
    → Ensures Inv (force_finish_turn env origin id s)
unfolding force_finish_turn
force_finish_turn-Ensures env origin id s v = signed-bind Inv origin _ λ who _.
    ok_or-bind Inv (s.game_storage id) _ _ λ g e.
      let valid = v.games id g e in
      let g' = record (next_turn g) { last_played_block = env.block_number } in
      let k = timed g env in
      let w = Keeps-IsValid g g' k valid in
      ensure-bind Inv (contains g.players who) player_not_in_game _ λ _.
        turn-bind Inv g _ valid λ current _.
          ensure-bind Inv (if current == who then false else true)
            current_player_cannot_force_finish_turn _
            λ _.
              ensure-bind Inv
                (leb (saturating_add u32_max g.last_played_block env.blocks_to_play_limit)
                  env.block_number)
                blocks_to_play_limit_not_passed _
                λ _.
                  verdict-bind id g' s _ w
                    (turn-bind Inv g' _ w λ next _.
                      deposit_event-Inv _ _ (deposit_event-Inv _ _ (put_game-Inv id g g' s e k v)))
                    (λ o. end_game-Ensures id o s v)
