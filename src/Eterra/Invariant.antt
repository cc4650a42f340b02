-- ===== src/Eterra/Invariant.antt =====
-- The invariant of the game pallet's storage, and how the shared helpers of
-- pallets/eterra/src/lib.rs keep it: every stored game has two distinct players and a turn that
-- names one of them; an account marked as active plays in a stored game that goes on; the lists of
-- recent games are bounded.
use eterra_polkadot_sdk_solo.Prelude.{
  ℕ, ◌≤◌, ◌<◌, ◌≡◌, ◌≢◌, refl, ◌∙◌, ap, subst, ◌==◌, true, Option, none, some, List, [], ◌∷◌,
  length, contains, get_elem?, update, arith, inl, inr, Option-cases,
}
use mathlib.Core.Option.{some-injective}
use eterra_polkadot_sdk_solo.Prelude.Maps.{update-cases}
use eterra_polkadot_sdk_solo.Prelude.Ensures.{Ensures, Ensures-bind, if-Ensures}
use eterra_polkadot_sdk_solo.Eterra.Types.{
  HandEntry, AccountId, GameId, Game, GameState, playing, finished, matchmaking, next_turn,
  next_turn_in, advance, Move, Event, game_finished,
}
use eterra_polkadot_sdk_solo.Eterra.Capture.{apply_capture_logic, place_card_on_board}
use eterra_polkadot_sdk_solo.Eterra.Capture.Rule.{apply_capture_logic-keeps}
use eterra_polkadot_sdk_solo.Eterra.Capture.Fits.{ScoresFit, apply_capture_logic-ScoresFit}
use eterra_polkadot_sdk_solo.Eterra.Store.{
  Store, Env, put_game, deposit_event, clear_active, winner_index, end_game, end_stored_game,
}
use eterra_polkadot_sdk_solo.Eterra.Ai.{resolve_move, put_hand}

pub record IsValid (g : Game) : Type 0 where
  pub first : AccountId
  pub second : AccountId
  pub seats : g.players ≡ first ∷ second ∷ []
  pub distinct : first ≢ second
  pub turn : g.player_turn < 2

abbrev pub PlaysIn : AccountId → Option Game → Type 0
PlaysIn a none = ⊥
PlaysIn a (some g) = (g.state ≡ playing) × (contains g.players a ≡ true)

pub record Inv (s : Store) : Type 0 where
  pub games : (id : GameId) (g : Game) → s.game_storage id ≡ some g → IsValid g
  pub fits : (id : GameId) (g : Game) → s.game_storage id ≡ some g → ScoresFit g
  pub active :
      (a : AccountId) (id : GameId) → s.active_game_of a ≡ some id → PlaysIn a (s.game_storage id)
  pub recents : (a : AccountId) → length (s.player_games a).elements ≤ 10

-- One game in place of another, with the same players and the same state.
pub record Keeps (g g' : Game) : Type 0 where
  pub players : g'.players ≡ g.players
  pub state : g'.state ≡ g.state
  pub turn : g.player_turn < 2 → g'.player_turn < 2
  pub fits : ScoresFit g → ScoresFit g'

pub next_turn-Keeps : (g : Game) → Keeps g (next_turn g)
unfolding next_turn next_turn_in advance
next_turn-Keeps g = go g.state refl
  where
    go : (st : GameState) → g.state ≡ st → Keeps g (next_turn_in st g)
    go matchmaking e = ground arith
    go playing e = ground arith
    go (finished w) e = ground arith

pub resolve_move-Keeps :
    (env : Env) (mv : Move) (ix : ℕ) (g : Game) → Keeps g (resolve_move env mv ix g)
unfolding resolve_move place_card_on_board
resolve_move-Keeps env mv ix g =
    let moved = place_card_on_board g mv ix in
    ground (
      arith,
      next_turn-Keeps
          (record (apply_capture_logic moved mv ix) { last_played_block = env.block_number }),
      apply_capture_logic-keeps moved mv ix,
      apply_capture_logic-ScoresFit moved mv ix,
    )

pub Keeps-IsValid : (g g' : Game) → Keeps g g' → IsValid g → IsValid g'
Keeps-IsValid g g' k v = record {
  first = v.first;
  second = v.second;
  seats = k.players ∙ v.seats;
  distinct = v.distinct;
  turn = k.turn v.turn;
}

pub deposit_event-Inv : (e : Event) (s : Store) → Inv s → Inv (deposit_event e s)
unfolding deposit_event
deposit_event-Inv e s v = record {
  games = v.games;
  fits = v.fits;
  active = v.active;
  recents = v.recents;
}

-- Replacing a stored game by one that keeps its players and state.
pub put_game-Inv :
    (id : GameId) (g g' : Game) (s : Store)
    → s.game_storage id ≡ some g
    → Keeps g g'
    → Inv s
    → Inv (put_game id g' s)
unfolding put_game
put_game-Inv id g g' s e k v = record {
  games = λ id' h q.
      update-cases (λ o. o ≡ some h → IsValid h) s.game_storage id (some g') id'
        (λ _ p. subst IsValid (some-injective _ _ p) (Keeps-IsValid g g' k (v.games id g e)))
        (λ _. v.games id' h) q;
  fits = λ id' h q.
      update-cases (λ o. o ≡ some h → ScoresFit h) s.game_storage id (some g') id'
        (λ _ p. subst ScoresFit (some-injective _ _ p) (k.fits (v.fits id g e))) (λ _. v.fits id' h)
        q;
  active = λ a id' q.
      update-cases (PlaysIn a) s.game_storage id (some g') id'
        (λ same.
          let p = subst (PlaysIn a) (ap s.game_storage same ∙ e) (v.active a id' q) in
          (k.state ∙ p.0, rw k.players p.1))
        (λ _. v.active a id' q);
  recents = v.recents;
}

pub put_hand-Inv :
    (id : GameId) (acct : AccountId) (hand : List HandEntry) (s : Store)
    → Inv s
    → Inv (put_hand id acct hand s)
unfolding put_hand
put_hand-Inv id acct hand s v = record {
  games = v.games;
  fits = v.fits;
  active = v.active;
  recents = v.recents;
}

abbrev cleared : AccountId → AccountId → Store → Store
cleared a b s = record s { active_game_of = update (update s.active_game_of a none) b none }

clear_both :
    (g : Game) (s : Store) (w : IsValid g)
    → clear_active (get_elem? g.players 1) (clear_active (get_elem? g.players 0) s)
      ≡ cleared w.first w.second s
unfolding clear_active
clear_both g s w = ground arith

-- What a marker that survives the clearing says.
cleared_marker :
    (a b c id : ℕ) (s : Store)
    → (cleared a b s).active_game_of c ≡ some id
    → (c ≢ a) × (c ≢ b) × (s.active_game_of c ≡ some id)
cleared_marker a b c id s e = (ground arith, ground arith, ground arith)

not-PlaysIn :
    (a : AccountId) (g : Game) (w : IsValid g) → a ≢ w.first → a ≢ w.second → ¬ PlaysIn a (some g)
not-PlaysIn a g w p q (_, h) = ground arith

-- A game that ends: its players are no longer marked as active.
finish-Inv :
    (id : GameId) (g : Game) (ix : Option ℕ) (s : Store)
    → s.game_storage id ≡ some g
    → (w : IsValid g) → Inv s
    → Inv (put_game id (record g { state = finished ix }) (cleared w.first w.second s))
unfolding put_game
finish-Inv id g ix s e w v = record {
  games = λ id' h q.
      update-cases (λ o. o ≡ some h → IsValid h) s.game_storage id (some g') id'
        (λ _ p. subst IsValid (some-injective _ _ p) over) (λ _. v.games id' h) q;
  fits = λ id' h q.
      update-cases (λ o. o ≡ some h → ScoresFit h) s.game_storage id (some g') id'
        (λ _ p. subst ScoresFit (some-injective _ _ p) (v.fits id g e)) (λ _. v.fits id' h) q;
  active = λ a id' q.
      let (p0, p1, marked) = cleared_marker w.first w.second a id' s q in
      update-cases (PlaysIn a) s.game_storage id (some g') id'
        (λ same. absurd (
          not-PlaysIn a g w p0 p1
            (subst (PlaysIn a) (ap s.game_storage same ∙ e) (v.active a id' marked))))
        (λ _. v.active a id' marked);
  recents = v.recents;
}
  where
    g' : Game
    g' = record g { state = finished ix }

    over : IsValid g'
    over = record {
      first = w.first;
      second = w.second;
      seats = w.seats;
      distinct = w.distinct;
      turn = w.turn;
    }

winner_index-Ensures :
    (g : Game) (w : Option AccountId) → IsValid g → Ensures (λ _. Unit {0}) (winner_index g w)
unfolding winner_index
winner_index-Ensures g none v = tt
winner_index-Ensures g (some a) v = rw v.seats (if-Ensures _ (a == v.first) _ _ (λ _. tt) (λ _. tt))

-- Ending a game does not panic, and keeps the invariant.
pub end_game-Ensures :
    (id : GameId) (w : Option AccountId) (s : Store) → Inv s → Ensures Inv (end_game id w s)
unfolding end_game end_stored_game
end_game-Ensures id w s v = elim (Option-cases (s.game_storage id)) [
  | inl missing ↦ rw (missing, end_game) (deposit_event-Inv _ s v)
  | inr (g, found) ↦ rw (found, end_game) (ended g found)
]
  where
    ended : (g : Game) → s.game_storage id ≡ some g → Ensures Inv (end_stored_game id w g s)
    ended g found =
        let valid = v.games id g found in
        let s1 = deposit_event (game_finished id w) s in
        Ensures-bind (λ _. Unit {0}) Inv (winner_index g w) _ (winner_index-Ensures g w valid)
          λ ix _.
            rw (clear_both g s1 valid) (finish-Inv id g ix s1 found valid (deposit_event-Inv _ s v))
