-- ===== src/Prelude/Results.antt =====
-- How a call ends: with a value, with one of the pallet's errors, with FRAME's `BadOrigin`, with an
-- error of the currency (or another one that the pallet passes on), or with a panic (an index out
-- of range). A dispatchable that does not end with `ok` changes nothing: FRAME rolls its storage
-- back.
use mathlib.Core.Bool.{Bool, true, false}
use mathlib.Core.Option.{Option, none, some}
use Prim.Native.Nat.{ℕ}

pub data Result {ℓ} (E : Type 0) (A : Type ℓ) : Type ℓ where
  ok : A → Result E A
  err : E → Result E A
  bad_origin : Result E A
  passed_on : Result E A
  panic : Result E A

infixl 5 ◌>>=◌ ◌>>◌
abbrev pub ◌>>=◌ {ℓ κ} :
    {E : Type 0} {A : Type ℓ} {B : Type κ} → Result E A → (A → Result E B) → Result E B
ok a >>= f = f a
err e >>= f = err e
bad_origin >>= f = bad_origin
passed_on >>= f = passed_on
panic >>= f = panic

abbrev pub ◌>>◌ {ℓ} : {E : Type 0} {B : Type ℓ} → Result E (Unit {0}) → Result E B → Result E B
m >> k = m >>= λ _. k

-- Who sent the call.
pub data Origin : Type 0 where
  signed : ℕ → Origin
  root unsigned : Origin

module _ {E : Type 0} where
  -- `ensure_signed(origin)?`
  abbrev pub ensure_signed : Origin → Result E ℕ
  ensure_signed (signed who) = ok who
  ensure_signed root = bad_origin
  ensure_signed unsigned = bad_origin

  -- `ensure_none(origin)?`
  abbrev pub ensure_none : Origin → Result E (Unit {0})
  ensure_none (signed who) = bad_origin
  ensure_none root = bad_origin
  ensure_none unsigned = ok tt

  -- `ensure_root(origin)?`
  abbrev pub ensure_root : Origin → Result E (Unit {0})
  ensure_root (signed who) = bad_origin
  ensure_root root = ok tt
  ensure_root unsigned = bad_origin

  -- `ensure!(b, e)`
  abbrev pub ensure : Bool → E → Result E (Unit {0})
  ensure true e = ok tt
  ensure false e = err e

  module _ {ℓ} {A : Type ℓ} where
    -- `o.ok_or(e)?`
    abbrev pub ok_or : Option A → E → Result E A
    ok_or none e = err e
    ok_or (some a) e = ok a

    -- `v[i]`
    abbrev pub or_panic : Option A → Result E A
    or_panic none = panic
    or_panic (some a) = ok a
