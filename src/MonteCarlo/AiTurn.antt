-- ===== src/MonteCarlo/AiTurn.antt =====
-- The AI's turn in pallets/eterra/src/lib.rs with the search of
-- pallets/eterra-monte-carlo-ai/src/lib.rs over crates/eterra-card-ai-adapter/src/lib.rs.
use mathlib.Core.Option.{some-injective}
use eterra_polkadot_sdk_solo.Prelude.{
  ℕ, ◌≤◌, ◌<◌, ◌≡◌, ◌≢◌, refl, sym, ap, ◌∙◌, subst, inl, inr, true, false, if◌then◌else◌, none,
  some, List, [], ◌∷◌, get_elem?, Bool-cases, ◌==◌, ==_refl, arith,
}
use eterra_polkadot_sdk_solo.Prelude.Panics.{Returns-eq}
use eterra_polkadot_sdk_solo.Eterra.Types.{AccountId, GameId, Game, HandEntry}
use eterra_polkadot_sdk_solo.Eterra.Store.{Store, Env, is_pve}
use eterra_polkadot_sdk_solo.Eterra.Ai.{
  map_hand, state_of, build_ai_state, ai_place, ai_play, ai_follow, maybe_ai_take_turn,
}
use eterra_polkadot_sdk_solo.AiAdapter.Types.{Action}
use eterra_polkadot_sdk_solo.AiAdapter.Adapter.{is_terminal, list_actions_pure}
use eterra_polkadot_sdk_solo.AiAdapter.Entries.{Legal}
use eterra_polkadot_sdk_solo.Prelude.Each.{Has}
use eterra_polkadot_sdk_solo.AiAdapter.Listing.{ListsLegal, list_actions_pure-lists}
use eterra_polkadot_sdk_solo.MonteCarlo.{Config, suggest}
use eterra_polkadot_sdk_solo.MonteCarlo.Search.{Suggests, suggest-Suggests}
use eterra_polkadot_sdk_solo.MonteCarlo.Adapter.{card_game}
use eterra_polkadot_sdk_solo.MonteCarlo.CardGame.{card_game-Lawful}
use eterra_polkadot_sdk_solo.MonteCarlo.AiHands.{
  length-map_hand, map_hand-entry, hand_to_play, state_of-Valid, state_of-held, ai_play-legal,
  state_of-free,
}

-- The game pallet with these settings of the search, at this nonce.
abbrev pub with_search : Config → ℕ → Env → Env
with_search config nonce env = record env { search = config; nonce = nonce }

-- It is the AI's turn in a PvE game that is not over, and both players' hands are stored.
pub record AiToMove (env : Env) (id : GameId) (g : Game) (s : Store) (p0 p1 : AccountId)
    (e0 e1 : List HandEntry) : Type 0 where
  pub pve : is_pve (s.game_modes id) ≡ true
  pub players : g.players ≡ p0 ∷ p1 ∷ []
  pub first_hand : s.hands_of_game id p0 ≡ some e0
  pub second_hand : s.hands_of_game id p1 ≡ some e1
  pub turn : g.player_turn < 2
  pub mover : (if g.player_turn == 0 then p0 else p1) ≡ env.ai_account
  pub live : g.round < g.max_rounds
  pub low : g.scores.0 ≤ 255
  pub high : g.scores.1 ≤ 255

module _ {env : Env} {id : GameId} {g : Game} {s : Store} {p0 p1 : AccountId}
    {e0 e1 : List HandEntry} (config : Config) (nonce : ℕ)
    (m : AiToMove env id g s p0 p1 e0 e1) where
  mover_hand : s.hands_of_game id env.ai_account ≡ some (hand_to_play g e0 e1 m.turn)
  mover_hand = elim (Bool-cases (g.player_turn == 0)) [
    | inl first ↦ rw first (ap (s.hands_of_game id) (sym m.mover ∙ rw first refl) ∙ m.first_hand)
    | inr second ↦
        rw second (ap (s.hands_of_game id) (sym m.mover ∙ rw second refl) ∙ m.second_hand)
  ]

  on_turn : get_elem? g.players g.player_turn ≡ some env.ai_account
  on_turn = elim (Bool-cases (g.player_turn == 0)) [
    | inl first ↦
        let z : g.player_turn ≡ 0 = ground arith in
        rw (m.players, z) (ap some (sym (rw z refl) ∙ m.mover))
    | inr second ↦
        let z : g.player_turn ≡ 1 = ground (arith, m.turn) in
        rw (m.players, z) (ap some (sym (rw z refl) ∙ m.mover))
  ]

  built : build_ai_state id g s ≡ some (state_of g e0 e1)
  unfolding build_ai_state
  built = rw (m.players, m.first_hand, m.second_hand) refl

  turn_is_search :
      (a : Action) (n : ℕ)
      → suggest card_game config (state_of g e0 e1) env.ai_difficulty nonce ≡ some (some a, n)
      → maybe_ai_take_turn (with_search config nonce env) id g s
        ≡ ai_play (with_search config nonce env) id g a s
  unfolding maybe_ai_take_turn ai_follow
  turn_is_search a n e = rw (m.pve, on_turn, ==_refl env.ai_account, built, e) refl

  state_of-live : is_terminal (state_of g e0 e1) ≡ false
  unfolding is_terminal state_of
  state_of-live = ground (arith, m.live)

  -- The listing of the moves contains each of them.
  lists_all :
      (l : List Action)
      → list_actions_pure 128 (state_of g e0 e1) ≡ some l
      → (b : Action) → Legal (state_of g e0 e1) b
      → Has b l
  unfolding state_of
  lists_all l e b can =
      let (l', e', lists) =
        Returns-eq (ListsLegal (state_of g e0 e1) 128) (list_actions_pure 128 (state_of g e0 e1)) (
          list_actions_pure-lists (state_of g e0 e1) 128 (map_hand 5 (hand_to_play g e0 e1 m.turn))
            m.live (state_of-held g e0 e1 m.turn)
            (length-map_hand 5 (hand_to_play g e0 e1 m.turn))) in
      subst (Has b) (some-injective l' l (sym e' ∙ e)) (lists.2 (omega arith) b can)

  -- Where there is a legal action, the search finds one.
  suggest-Legal :
      (b : Action)
      → Legal (state_of g e0 e1) b
      → (a : Action) × (n : ℕ) × (suggest card_game config
            (state_of g e0 e1)
            env.ai_difficulty
            nonce
          ≡ some (some a, n))
        × Legal (state_of g e0 e1) a
  unfolding card_game is_terminal
  suggest-Legal b can =
      let (r, told, sug) =
        Returns-eq
          (Suggests card_game config card_game-Lawful (state_of g e0 e1) env.ai_difficulty nonce)
          (suggest card_game config (state_of g e0 e1) env.ai_difficulty nonce)
          (suggest-Suggests card_game config card_game-Lawful (state_of g e0 e1) env.ai_difficulty
            nonce (state_of-Valid g e0 e1 m.turn m.low m.high)) in
      elim sug [
        | inl (over, e) ↦ absurd (differ (sym over ∙ state_of-live))
        | inr (inl (nothing, e)) ↦ absurd (lists_all [] nothing b can)
        | inr (inr best) ↦
            (best.action, r.1, told ∙ ap (λ o. some (o, r.1)) best.result, best.legal)
      ]
    where
      differ : true ≢ false
      differ q = cc

  -- It is the AI's turn in a PvE game that is not over, the hands of both players are stored, and
  -- the AI has an unused card and the board an empty cell. Then the search, whatever its settings and
  -- its nonce, suggests a card and a cell that pass every guard of the game pallet, and the AI's turn
  -- is to place that card there.
  pub maybe_ai_take_turn-plays :
      (b : Action)
      → Legal (state_of g e0 e1) b
      → (a : Action) × (h : HandEntry) × (get_elem? (hand_to_play g e0 e1 m.turn) a.hand_index
          ≡ some h)
        × (h.used ≡ false)
        × (a.x < 4)
        × (a.y < 4)
        × (g.board a.x a.y ≡ none)
        × ((n : ℕ) × (suggest card_game config (state_of g e0 e1) env.ai_difficulty nonce
              ≡ some (some a, n)))
        × (maybe_ai_take_turn (with_search config nonce env) id g s
            ≡ ai_place (with_search config nonce env) id g (hand_to_play g e0 e1 m.turn) h a s)
  maybe_ai_take_turn-plays b can =
      let (a, n, found, legal) = suggest-Legal b can in
      let slot : get_elem? (map_hand 5 (hand_to_play g e0 e1 m.turn)) a.hand_index
          ≡ some legal.slot =
        subst (λ l. get_elem? l a.hand_index ≡ some legal.slot)
          (some-injective legal.hand (map_hand 5 (hand_to_play g e0 e1 m.turn))
            (sym legal.held ∙ state_of-held g e0 e1 m.turn))
          legal.entry in
      let (h, entry, unused) =
        map_hand-entry 5 (hand_to_play g e0 e1 m.turn) a.hand_index legal.slot slot legal.unused in
      let free = state_of-free g e0 e1 a.x a.y legal.free in
      (
        a,
        h,
        entry,
        unused,
        legal.column,
        legal.row,
        free,
        (n, found),
        turn_is_search a n found
            ∙ ai_play-legal (with_search config nonce env) id g a s (hand_to_play g e0 e1 m.turn) h
                mover_hand entry unused legal.column legal.row free,
      )
