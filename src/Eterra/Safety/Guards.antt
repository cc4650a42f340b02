-- ===== src/Eterra/Safety/Guards.antt =====
-- The checks that the calls of pallets/eterra/src/lib.rs begin with, on a valid game.
use eterra_polkadot_sdk_solo.Prelude.{
  ℕ, ◌<◌, ◌≡◌, none, some, get_elem?, arith, inl, inr, Option-cases,
}
use eterra_polkadot_sdk_solo.Prelude.Results.{Result, or_panic, ◌>>=◌, ◌>>◌}
use eterra_polkadot_sdk_solo.Prelude.Ensures.{Ensures, Ensures-bind}
use eterra_polkadot_sdk_solo.Eterra.Types.{AccountId, GameId, Game, Error}
use eterra_polkadot_sdk_solo.Eterra.Store.{
  Store, validate_player_turn, validate_cell, get_current_player_index, is_game_won,
}
use eterra_polkadot_sdk_solo.Eterra.Invariant.{IsValid}

turn_seat : (g : Game) → IsValid g → (a : AccountId) × (get_elem? g.players g.player_turn ≡ some a)
turn_seat g v = elim (Option-cases (get_elem? g.players g.player_turn)) [
  | inl missing ↦ absurd (ground arith)
  | inr found ↦ found
]

-- The player whose turn it is can be read.
pub turn-bind {κ} :
    {B : Type κ} (Q : B → Type 0) (g : Game) (f : AccountId → Result Error B)
    → IsValid g
    → ((a : AccountId) → get_elem? g.players g.player_turn ≡ some a → Ensures Q (f a))
    → Ensures Q (or_panic (get_elem? g.players g.player_turn) >>= f)
turn-bind Q g f v h = let (a, e) = turn_seat g v in rw e (h a e)

pub validate_player_turn-Ensures :
    (g : Game) (who : AccountId)
    → IsValid g
    → Ensures (λ _. get_elem? g.players g.player_turn ≡ some who) (validate_player_turn g who)
unfolding validate_player_turn
validate_player_turn-Ensures g who v =
    turn-bind (λ _. get_elem? g.players g.player_turn ≡ some who) g _ v λ a e. ground arith

pub validate_cell-Ensures :
    (g : Game) (x y : ℕ)
    → Ensures (λ _. (x < 4) × (y < 4) × (g.board x y ≡ none)) (validate_cell g x y)
unfolding validate_cell
validate_cell-Ensures g x y = ground arith

pub get_current_player_index-Ensures :
    (g : Game) (who : AccountId)
    → IsValid g
    → Ensures (λ ix. ix < 2) (get_current_player_index g who)
unfolding get_current_player_index
get_current_player_index-Ensures g who v = rw v.seats (ground arith)

pub is_game_won-Ensures :
    (id : GameId) (g : Game) (s : Store) → IsValid g → Ensures (λ _. Unit {0}) (is_game_won id g s)
unfolding is_game_won
is_game_won-Ensures id g s v = ground arith

-- The same, as rules for the `do` blocks of the calls.
module _ {B : Type 0} (Q : B → Type 0) (g : Game) where
  pub validate_player_turn-bind :
      (who : AccountId) (k : Result Error B)
      → IsValid g
      → (get_elem? g.players g.player_turn ≡ some who → Ensures Q k)
      → Ensures Q (validate_player_turn g who >> k)
  validate_player_turn-bind who k v h =
      Ensures-bind (λ _. get_elem? g.players g.player_turn ≡ some who) Q
        (validate_player_turn g who) (λ _. k) (validate_player_turn-Ensures g who v) (λ _. h)

  pub validate_cell-bind :
      (x y : ℕ) (k : Result Error B)
      → (x < 4 → y < 4 → g.board x y ≡ none → Ensures Q k)
      → Ensures Q (validate_cell g x y >> k)
  validate_cell-bind x y k h =
      Ensures-bind (λ _. (x < 4) × (y < 4) × (g.board x y ≡ none)) Q (validate_cell g x y) (λ _. k)
        (validate_cell-Ensures g x y) (λ _ (p, q, r). h p q r)

  pub index-bind :
      (who : AccountId) (f : ℕ → Result Error B)
      → IsValid g
      → ((ix : ℕ) → ix < 2 → Ensures Q (f ix))
      → Ensures Q (get_current_player_index g who >>= f)
  index-bind who f v h =
      Ensures-bind (λ ix. ix < 2) Q (get_current_player_index g who) f
        (get_current_player_index-Ensures g who v) h
