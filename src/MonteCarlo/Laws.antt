-- ===== src/MonteCarlo/Laws.antt =====
-- What the search of pallets/eterra-monte-carlo-ai/src/lib.rs asks of a game adapter.
use eterra_polkadot_sdk_solo.Prelude.{ℕ, ◌≤◌, ◌<◌, ◌≡◌, false, Option, none, some}
use eterra_polkadot_sdk_solo.Prelude.Int.{ℤ, pos, negsuc}
use eterra_polkadot_sdk_solo.Prelude.Panics.{Returns}
use eterra_polkadot_sdk_solo.Prelude.Each.{All}
use eterra_polkadot_sdk_solo.MonteCarlo.{GameAdapter}

-- An integer of absolute value at most `b`.
abbrev pub Within : ℕ → ℤ → Type 0
Within b (pos n) = n ≤ b
Within b (negsuc n) = n < b

-- The chosen action, if there is one.
abbrev pub OnSome : {A : Type 0} → (A → Type 0) → Option A → Type 0
OnSome P none = Unit
OnSome P (some a) = P a

-- On the valid states nothing panics, the actions that are listed or drawn are legal, a legal action
-- leads to a valid state, and a score fits the `i32` that the trait gives it.
pub record Lawful {State Action Player : Type 0} (game : GameAdapter State Action Player)
    (Valid : State → Type 0) (Legal : State → Action → Type 0) : Type 0 where
  pub lists :
      (s : State) (n : ℕ)
      → Valid s
      → game.is_terminal s ≡ false
      → Returns (λ l. All (Legal s) l) (game.list_actions n s)
  pub draws :
      (s : State) (seed : ℕ)
      → Valid s
      → game.is_terminal s ≡ false
      → Returns (OnSome (Legal s)) (game.random_action s seed)
  pub applies : (s : State) (a : Action) → Valid s → Legal s a → Returns Valid (game.apply s a)
  pub scores : (s : State) (p : Player) → Valid s → Within 2147483647 (game.score s p)
