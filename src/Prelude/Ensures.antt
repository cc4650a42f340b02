-- ===== src/Prelude/Ensures.antt =====
-- Total correctness of a call: it does not panic, and what it returns satisfies `P`. The rules
-- follow the shape of a `do` block.
use Prim.Native.Nat.{ℕ}
use mathlib.Core.Path.{◌≡◌, refl}
use mathlib.Core.Bool.{Bool, true, false}
use mathlib.Core.Option.{Option, none, some}
use package.eterra_polkadot_sdk_solo.Prelude.Tests.{if◌then◌else◌}
use package.eterra_polkadot_sdk_solo.Prelude.Results.{
  Result, ok, err, bad_origin, passed_on, panic, ◌>>=◌, ◌>>◌, Origin, signed, root, unsigned,
  ensure_signed, ensure, ok_or,
}

module _ {E : Type 0} where
  abbrev pub Ensures {ℓ} : {A : Type ℓ} → (A → Type 0) → Result E A → Type 0
  Ensures P (ok a) = P a
  Ensures P (err e) = Unit
  Ensures P bad_origin = Unit
  Ensures P passed_on = Unit
  Ensures P panic = ⊥

  pub Ensures-bind {ℓ κ} :
      {A : Type ℓ} {B : Type κ} (P : A → Type 0) (Q : B → Type 0) (m : Result E A)
      (f : A → Result E B)
      → Ensures P m
      → ((a : A) → P a → Ensures Q (f a))
      → Ensures Q (m >>= f)
  Ensures-bind P Q (ok a) f p k = k a p
  Ensures-bind P Q (err e) f p k = tt
  Ensures-bind P Q bad_origin f p k = tt
  Ensures-bind P Q passed_on f p k = tt
  Ensures-bind P Q panic f p k = absurd p

  -- The guards of a call hand their test to what follows.
  pub ensure-bind {κ} :
      {B : Type κ} (Q : B → Type 0) (b : Bool) (e : E) (k : Result E B)
      → (b ≡ true → Ensures Q k)
      → Ensures Q (ensure b e >> k)
  ensure-bind Q true e k h = h refl
  ensure-bind Q false e k h = tt

  pub ok_or-bind {ℓ κ} :
      {A : Type ℓ} {B : Type κ} (Q : B → Type 0) (o : Option A) (e : E) (f : A → Result E B)
      → ((a : A) → o ≡ some a → Ensures Q (f a))
      → Ensures Q (ok_or o e >>= f)
  ok_or-bind Q none e f h = tt
  ok_or-bind Q (some a) e f h = h a refl

  pub signed-bind {κ} :
      {B : Type κ} (Q : B → Type 0) (o : Origin) (f : ℕ → Result E B)
      → ((who : ℕ) → o ≡ signed who → Ensures Q (f who))
      → Ensures Q (ensure_signed o >>= f)
  signed-bind Q (signed who) f h = h who refl
  signed-bind Q root f h = tt
  signed-bind Q unsigned f h = tt

  pub if-Ensures {κ} :
      {B : Type κ} (Q : B → Type 0) (b : Bool) (x y : Result E B)
      → (b ≡ true → Ensures Q x)
      → (b ≡ false → Ensures Q y)
      → Ensures Q (if b then x else y)
  if-Ensures Q true x y h k = h refl
  if-Ensures Q false x y h k = k refl

-- What a call that succeeds has passed.
module _ {E : Type 0} where
  pub ensure-eq-ok {κ} :
      {B : Type κ} (b : Bool) (e : E) (k : Result E B) {t : B}
      → (ensure b e >> k) ≡ ok t
      → (b ≡ true) × (k ≡ ok t)
  ensure-eq-ok true e k h = (refl, h)
  ensure-eq-ok false e k h = cc

  pub signed-eq-ok {κ} :
      {B : Type κ} (o : Origin) (f : ℕ → Result E B) {t : B}
      → (ensure_signed o >>= f) ≡ ok t
      → (who : ℕ) × (o ≡ signed who) × (f who ≡ ok t)
  signed-eq-ok (signed who) f h = (who, refl, h)
  signed-eq-ok root f h = cc
  signed-eq-ok unsigned f h = cc

  pub ok_or-eq-ok {ℓ κ} :
      {A : Type ℓ} {B : Type κ} (o : Option A) (e : E) (f : A → Result E B) {t : B}
      → (ok_or o e >>= f) ≡ ok t
      → (a : A) × (o ≡ some a) × (f a ≡ ok t)
  ok_or-eq-ok none e f h = cc
  ok_or-eq-ok (some a) e f h = (a, refl, h)

  pub >>=-eq-ok {ℓ κ} :
      {A : Type ℓ} {B : Type κ} (m : Result E A) (f : A → Result E B) {t : B}
      → (m >>= f) ≡ ok t
      → (a : A) × (m ≡ ok a) × (f a ≡ ok t)
  >>=-eq-ok (ok a) f h = (a, refl, h)
  >>=-eq-ok (err e) f h = cc
  >>=-eq-ok bad_origin f h = cc
  >>=-eq-ok passed_on f h = cc
  >>=-eq-ok panic f h = cc

  pub ok_injective {ℓ} : {A : Type ℓ} {a b : A} → ◌≡◌ {A = Result E A} (ok a) (ok b) → a ≡ b
  ok_injective h = cc

  abbrev pub is_ok {ℓ} : {A : Type ℓ} → Result E A → Bool
  is_ok (ok a) = true
  is_ok _ = false

  pub is_ok-eq {ℓ} : {A : Type ℓ} (m : Result E A) → is_ok m ≡ true → (a : A) × (m ≡ ok a)
  is_ok-eq (ok a) h = (a, refl)
  is_ok-eq (err e) h = cc
  is_ok-eq bad_origin h = cc
  is_ok-eq passed_on h = cc
  is_ok-eq panic h = cc
