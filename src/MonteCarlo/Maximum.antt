-- ===== src/MonteCarlo/Maximum.antt =====
-- The search for the first maximum that `suggest` of pallets/eterra-monte-carlo-ai/src/lib.rs makes
-- of the averages of the actions.
use eterra_polkadot_sdk_solo.Prelude.{
  ℕ, zero, suc, ◌+◌, ◌<◌, ◌≡◌, refl, ◌∙◌, subst, ◌⊎◌, inl, inr, true, false, if◌then◌else◌, some,
  List, [], ◌∷◌, get_elem?, Bool-cases, arith,
}
use mathlib.Core.Option.{some-injective}
use eterra_polkadot_sdk_solo.Prelude.Int.{ℤ, pos, negsuc, ltℤ}
use eterra_polkadot_sdk_solo.Prelude.Each.{All}

ltℤ_irrefl : (a : ℤ) → ltℤ a a ≡ false
ltℤ_irrefl (pos a) = ground arith
ltℤ_irrefl (negsuc a) = ground arith

ltℤ_asymm : (a b : ℤ) → ltℤ a b ≡ true → ltℤ b a ≡ false
ltℤ_asymm (pos a) (pos b) h = ground arith
ltℤ_asymm (pos a) (negsuc b) h = ground arith
ltℤ_asymm (negsuc a) (pos b) h = ground arith
ltℤ_asymm (negsuc a) (negsuc b) h = ground arith

-- What is not above `b` is below all that is.
ltℤ_mixed : (b x m : ℤ) → ltℤ b x ≡ false → ltℤ b m ≡ true → ltℤ x m ≡ true
ltℤ_mixed (pos b) (pos x) (pos m) h k = ground arith
ltℤ_mixed (pos b) (pos x) (negsuc m) h k = ground arith
ltℤ_mixed (pos b) (negsuc x) (pos m) h k = ground arith
ltℤ_mixed (pos b) (negsuc x) (negsuc m) h k = ground arith
ltℤ_mixed (negsuc b) (pos x) (pos m) h k = ground arith
ltℤ_mixed (negsuc b) (pos x) (negsuc m) h k = ground arith
ltℤ_mixed (negsuc b) (negsuc x) (pos m) h k = ground arith
ltℤ_mixed (negsuc b) (negsuc x) (negsuc m) h k = ground arith

ltℤ_trans : (a b c : ℤ) → ltℤ a b ≡ true → ltℤ b c ≡ true → ltℤ a c ≡ true
ltℤ_trans (pos a) (pos b) (pos c) h k = ground arith
ltℤ_trans (pos a) (pos b) (negsuc c) h k = ground arith
ltℤ_trans (pos a) (negsuc b) c h k = ground arith
ltℤ_trans (negsuc a) (pos b) (pos c) h k = ground arith
ltℤ_trans (negsuc a) (pos b) (negsuc c) h k = ground arith
ltℤ_trans (negsuc a) (negsuc b) (pos c) h k = ground arith
ltℤ_trans (negsuc a) (negsuc b) (negsuc c) h k = ground arith

-- The comparison of `suggest`, on a list of averages.
abbrev pub scan : ℕ → List ℤ → ℕ → ℤ → ℕ
scan i [] best_idx best_score = best_idx
scan i (x ∷ xs) best_idx best_score =
    if ltℤ best_score x then scan (i + 1) xs i x else scan (i + 1) xs best_idx best_score

abbrev pub NoneAbove : ℤ → List ℤ → Type 0
NoneAbove m xs = All (λ x. ltℤ m x ≡ false) xs

-- Number `k` is the first of the largest.
pub record FirstMax (xs : List ℤ) (k : ℕ) : Type 0 where
  pub value : ℤ
  pub stands : get_elem? xs k ≡ some value
  pub highest : NoneAbove value xs
  pub first : (j : ℕ) (x : ℤ) → j < k → get_elem? xs j ≡ some x → ltℤ x value ≡ true

-- Nothing beats the start, or the scan ends at the first maximum, which beats it.
abbrev pub Scanned : ℕ → List ℤ → ℕ → ℤ → ℕ → Type 0
Scanned i xs best_idx best_score r =
    ((r ≡ best_idx) × NoneAbove best_score xs)
    ⊎ ((k : ℕ) × (r ≡ i + k) × (f : FirstMax xs k) × (ltℤ best_score f.value ≡ true))

scan-later :
    (i k : ℕ) (x : ℤ) (xs : List ℤ) (f : FirstMax xs k)
    → ltℤ x f.value ≡ true
    → (g : FirstMax (x ∷ xs) (suc k)) × (g.value ≡ f.value)
scan-later i k x xs f h = (
  record {
    value = f.value;
    stands = f.stands;
    highest = (ltℤ_asymm x f.value h, f.highest);
    first = earlier;
  },
  refl,
)
  where
    earlier : (j : ℕ) (y : ℤ) → j < suc k → get_elem? (x ∷ xs) j ≡ some y → ltℤ y f.value ≡ true
    earlier zero y lt e = subst (λ z. ltℤ z f.value ≡ true) (some-injective x y e) h
    earlier (suc j) y lt e = f.first j y (omega (arith, lt)) e

pub scan-Scanned :
    (xs : List ℤ) (i best_idx : ℕ) (best_score : ℤ)
    → Scanned i xs best_idx best_score (scan i xs best_idx best_score)
scan-Scanned [] i bi bs = inl (refl, tt)
scan-Scanned (x ∷ xs) i bi bs = elim (Bool-cases (ltℤ bs x)) [
  | inl above ↦ rw above (elim (scan-Scanned xs (i + 1) i x) [
    | inl (e, none_above) ↦ inr (
      0,
      e ∙ omega arith,
      record {
        value = x;
        stands = refl;
        highest = (ltℤ_irrefl x, none_above);
        first = λ j y lt e. absurd (omega (arith, lt));
      },
      above,
    )
    | inr (k, e, f, beats) ↦
        let (g, same) = scan-later i k x xs f beats in
        inr (suc k, e ∙ omega arith, g, rw same (ltℤ_trans bs x f.value above beats))
  ])
  | inr not_above ↦ rw not_above (elim (scan-Scanned xs (i + 1) bi bs) [
    | inl (e, none_above) ↦ inl (e, (refl, none_above))
    | inr (k, e, f, beats) ↦
        let (g, same) = scan-later i k x xs f (ltℤ_mixed bs x f.value not_above beats) in
        inr (suc k, e ∙ omega arith, g, rw same beats)
  ])
]
