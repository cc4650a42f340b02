-- ===== src/Prelude/Sums.antt =====
-- Sums of a function over `0 .. n`, and how one changed value moves the sum.
use Prim.Native.Nat.{ℕ, zero, suc, ◌+◌, ◌<◌}
use mathlib.Core.Path.{◌≡◌, refl, sym}
use mathlib.Core.Logic.{◌≢◌}
use native.Mathlib.Omega.{arith}
use native.Mathlib.Decide.{ℕ_discrete}

unfoldable pub sum_below : ℕ → (ℕ → ℕ) → ℕ
sum_below zero f = 0
sum_below (suc n) f = f n + sum_below n f

-- Equal below `n`, equal sums.
pub sum_below_ext :
    (n : ℕ) (f g : ℕ → ℕ) → ((i : ℕ) → i < n → f i ≡ g i) → sum_below n f ≡ sum_below n g
unfolding sum_below
sum_below_ext zero f g h = refl
sum_below_ext (suc n) f g h =
    omega (arith, h n (omega arith), sum_below_ext n f g (λ i p. h i (omega arith)))

-- One value changes.
pub sum_below_change :
    (n k : ℕ) (f g : ℕ → ℕ)
    → k < n
    → ((i : ℕ) → i ≢ k → f i ≡ g i)
    → sum_below n f + g k ≡ sum_below n g + f k
unfolding sum_below
sum_below_change zero k f g h e = elim h [ ]
sum_below_change (suc n) k f g h e = elim (ℕ_discrete k n) [
  | yes same ↦ rw same (omega (arith, sum_below_ext n f g (λ i p. e i (λ q. absurd (omega arith)))))
  | no other ↦ omega (arith, e n (λ q. other (sym q)), sum_below_change n k f g (omega arith) e)
]
