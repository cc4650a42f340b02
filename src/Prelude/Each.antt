-- ===== src/Prelude/Each.antt =====
-- Membership in a list, and what holds of each of its elements, by recursion.
use Prim.Native.Nat.{ℕ, zero, suc}
use mathlib.Core.Path.{◌≡◌, refl, subst}
use mathlib.Core.Logic.{◌⊎◌, inl, inr}
use mathlib.Core.Option.{some, none-ne-some, some-injective}
use mathlib.Core.List.{List, [], ◌∷◌, ◌++◌}
use package.eterra_polkadot_sdk_solo.Prelude.Lists.{get_elem?, set}

abbrev pub Has : {A : Type 0} → A → List A → Type 0
Has a [] = ⊥
Has a (x ∷ xs) = (x ≡ a) ⊎ Has a xs

abbrev pub All : {A : Type 0} → (A → Type 0) → List A → Type 0
All P [] = Unit
All P (x ∷ xs) = P x × All P xs

pub Has-append : {A : Type 0} (a b : A) (l : List A) → Has a l → Has a (l ++ b ∷ [])
Has-append a b [] h = elim h [ ]
Has-append a b (x ∷ l) (inl e) = inl e
Has-append a b (x ∷ l) (inr h) = inr (Has-append a b l h)

pub Has-append_self : {A : Type 0} (a : A) (l : List A) → Has a (l ++ a ∷ [])
Has-append_self a [] = inl refl
Has-append_self a (x ∷ l) = inr (Has-append_self a l)

pub All-append :
    {A : Type 0} (P : A → Type 0) (a : A) (l : List A) → P a → All P l → All P (l ++ a ∷ [])
All-append P a [] p v = (p, v)
All-append P a (x ∷ l) p (q, v) = (q, All-append P a l p v)

pub All-get_elem? :
    {A : Type 0} (P : A → Type 0) (xs : List A) (k : ℕ) (x : A)
    → All P xs
    → get_elem? xs k ≡ some x
    → P x
All-get_elem? P [] k x v e = absurd (none-ne-some x e)
All-get_elem? P (y ∷ xs) zero x v e = subst P (some-injective y x e) v.0
All-get_elem? P (y ∷ xs) (suc k) x v e = All-get_elem? P xs k x v.1 e

pub All-set :
    {A : Type 0} (P : A → Type 0) (xs : List A) (k : ℕ) (x : A)
    → P x
    → All P xs
    → All P (set xs k x)
All-set P [] k x p v = v
All-set P (y ∷ xs) zero x p v = (p, v.1)
All-set P (y ∷ xs) (suc k) x p v = (v.0, All-set P xs k x p v.1)
