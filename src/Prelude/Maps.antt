-- ===== src/Prelude/Maps.antt =====
-- A storage map is a function of its key: `update` is `insert`, and `remove` where the value is
-- `none`.
use Prim.Native.Nat.{ℕ}
use mathlib.Core.Bool.{◌&&◌}
use mathlib.Core.Path.{◌≡◌}
use mathlib.Core.Logic.{◌≢◌}
use native.Mathlib.Decide.{ℕ_discrete}
use package.eterra_polkadot_sdk_solo.Prelude.Tests.{◌==◌, if◌then◌else◌, ==_of_eq, ==_ne}

module _ {ℓ} {V : Type ℓ} where
  abbrev pub update : (ℕ → V) → ℕ → V → ℕ → V
  update f k v j = if j == k then v else f j

  abbrev pub update₂ : (ℕ → ℕ → V) → ℕ → ℕ → V → ℕ → ℕ → V
  update₂ f k l v i j = if (i == k) && (j == l) then v else f i j

-- To prove something of a value that was read from an updated map.
pub update-cases {ℓ κ} :
    {V : Type ℓ} (P : V → Type κ) (f : ℕ → V) (k : ℕ) (v : V) (j : ℕ)
    → (j ≡ k → P v)
    → (j ≢ k → P (f j))
    → P (update f k v j)
update-cases P f k v j hit miss = elim (ℕ_discrete j k) [
  | yes same ↦ rw (==_of_eq j k same) (hit same)
  | no other ↦ rw (==_ne j k other) (miss other)
]
