-- ===== src/DailySlots/Selection.antt =====
-- The weighted selection of pallets/eterra-daily-slots/src/lib.rs: each symbol is chosen for as many
-- thresholds as its weight.
use eterra_polkadot_sdk_solo.Prelude.{
  ℕ, zero, suc, ◌+◌, ◌/◌, ◌%◌, ◌≤◌, ◌<◌, ◌≡◌, refl, ap, ◌∙◌, ltb, true, false, inl, inr, Bool-cases,
  some, List, [], ◌∷◌, ◌++◌, length, arith, u32_mod,
}
use native.Mathlib.Nat.{mod-lt}
use eterra_polkadot_sdk_solo.Prelude.Results.{ok}
use eterra_polkadot_sdk_solo.Prelude.Each.{Has}
use eterra_polkadot_sdk_solo.DailySlots.Types.{Entry, Store, Env}
use eterra_polkadot_sdk_solo.DailySlots.Reels.{total_weight, select, spin_reel, spin}

-- The sum of the weights, without wrap-around.
unfoldable pub weight_sum : List Entry → ℕ
weight_sum [] = 0
weight_sum (e ∷ es) = e.1 + weight_sum es

pub total_weight-sum :
    (es : List Entry) (acc : ℕ)
    → acc + weight_sum es < u32_mod
    → total_weight es acc ≡ acc + weight_sum es
unfolding total_weight weight_sum
total_weight-sum [] acc small = omega arith
total_weight-sum (e ∷ es) acc small =
    let small' : (acc + e.1) % u32_mod ≡ acc + e.1 = omega (arith, small) in
    rw small' (total_weight-sum es (acc + e.1) (omega (arith, small)) ∙ omega arith)

weight_sum-cons : (e : Entry) (es : List Entry) → weight_sum (e ∷ es) ≡ e.1 + weight_sum es
unfolding weight_sum
weight_sum-cons e es = refl

pub weight_sum-append : (xs ys : List Entry) → weight_sum (xs ++ ys) ≡ weight_sum xs + weight_sum ys
unfolding weight_sum
weight_sum-append [] ys = omega arith
weight_sum-append (e ∷ es) ys = omega (arith, weight_sum-append es ys)

pub select-miss :
    (d : Entry) (es : List Entry) (t acc : ℕ)
    → acc + d.1 < u32_mod
    → acc + d.1 ≤ t
    → select t (d ∷ es) acc ≡ select t es (acc + d.1)
unfolding select
select-miss d es t acc small low =
    let small' : (acc + d.1) % u32_mod ≡ acc + d.1 = omega (arith, small) in
    let miss : ltb t (acc + d.1) ≡ false = ground (arith, low) in rw (small', miss) refl

pub select-hit :
    (d : Entry) (es : List Entry) (t acc : ℕ)
    → acc + d.1 < u32_mod
    → t < acc + d.1
    → select t (d ∷ es) acc ≡ some d.0
unfolding select
select-hit d es t acc small high =
    let small' : (acc + d.1) % u32_mod ≡ acc + d.1 = omega (arith, small) in
    let hit : ltb t (acc + d.1) ≡ true = ground (arith, high) in rw (small', hit) refl

-- The entry whose share of the thresholds contains `t` is selected.
pub select-share :
    (before : List Entry) (e : Entry) (after : List Entry) (t acc : ℕ)
    → acc + weight_sum (before ++ e ∷ after) < u32_mod
    → acc + weight_sum before ≤ t
    → t < acc + weight_sum before + e.1
    → select t (before ++ e ∷ after) acc ≡ some e.0
unfolding select weight_sum
select-share [] e after t acc small low high =
    select-hit e after t acc (omega (arith, small)) (omega (arith, high))
select-share (d ∷ before) e after t acc small low high =
    select-miss d (before ++ e ∷ after) t acc (omega (arith, small)) (omega (arith, low))
    ∙ select-share before e after t (acc + d.1) (omega (arith, small)) (omega (arith, low))
        (omega (arith, high))

-- Some entry with a weight is selected below the sum.
pub select-some :
    (es : List Entry) (t acc : ℕ)
    → acc + weight_sum es < u32_mod
    → acc ≤ t
    → t < acc + weight_sum es
    → (e : Entry) × (select t es acc ≡ some e.0) × Has e es × (0 < e.1)
unfolding select weight_sum
select-some [] t acc small low high = absurd (omega (arith, low, high))
select-some (d ∷ es) t acc small low high = elim (Bool-cases (ltb t (acc + d.1))) [
  | inl hit ↦
      (d, select-hit d es t acc (omega (arith, small)) (ground arith), inl refl, ground arith)
  | inr miss ↦
      let (e, found, has, positive) =
        select-some es t (acc + d.1) (omega (arith, small)) (ground arith) (omega (arith, high)) in
      (e, select-miss d es t acc (omega (arith, small)) (ground arith) ∙ found, inr has, positive)
]

-- The weights of a reel are set, not all are 0, and their sum fits a `u32`.
pub record HasWeights {B : Type 0} (s : Store B) (reel : ℕ) : Type 0 where
  pub weights : List Entry
  pub stored : s.reel_weights reel ≡ some weights
  pub positive : 0 < weight_sum weights
  pub small : weight_sum weights < u32_mod

-- A symbol of the reel with a positive weight.
abbrev pub IsSymbol : {B : Type 0} → Store B → ℕ → ℕ → Type 0
IsSymbol s reel symbol =
    (weights : List Entry) × (s.reel_weights reel ≡ some weights)
    × (e : Entry) × (e.0 ≡ symbol)
    × Has e weights
    × (0 < e.1)

module _ {B : Type 0} (env : Env B) (who : ℕ) (s : Store B) where
  abbrev pub reel_number : ℕ → ℕ
  reel_number reel = env.reel_hash env.now_secs who reel env.block_number (env.block_number / 3600)

  spin_reel-select :
      (reel : ℕ) (weights : List Entry) (symbol : ℕ)
      → s.reel_weights reel ≡ some weights
      → 0 < weight_sum weights
      → weight_sum weights < u32_mod
      → select (reel_number reel % weight_sum weights) weights 0 ≡ some symbol
      → spin_reel env who reel s ≡ ok symbol
  unfolding spin_reel
  spin_reel-select reel weights symbol stored positive small found =
      let total : total_weight weights 0 ≡ weight_sum weights =
        total_weight-sum weights 0 (omega (arith, small)) ∙ omega arith in
      let some_weight : ltb 0 (weight_sum weights) ≡ true = ground (arith, positive) in
      rw (stored, total, some_weight, found) refl

  -- Where the weights of a reel add up to a positive sum that fits a `u32`, the reel shows the
  -- symbol in whose share of the sum the hash falls, modulo the sum: the shares follow one another
  -- in the order of the entries, and each is as long as its weight.
  pub spin_reel-share :
      (reel : ℕ) (before : List Entry) (e : Entry) (after : List Entry)
      → s.reel_weights reel ≡ some (before ++ e ∷ after)
      → weight_sum (before ++ e ∷ after) < u32_mod
      → weight_sum before ≤ reel_number reel % weight_sum (before ++ e ∷ after)
      → reel_number reel % weight_sum (before ++ e ∷ after) < weight_sum before + e.1
      → spin_reel env who reel s ≡ ok e.0
  spin_reel-share reel before e after stored small low high =
      spin_reel-select reel (before ++ e ∷ after) e.0 stored
        (positive (weight_sum-append before (e ∷ after))) small
        (select-share before e after (reel_number reel % weight_sum (before ++ e ∷ after)) 0
          (omega (arith, small)) (omega (arith, low)) (omega (arith, high)))
    where
      positive :
          weight_sum (before ++ e ∷ after) ≡ weight_sum before + weight_sum (e ∷ after)
          → 0 < weight_sum (before ++ e ∷ after)
      positive split = omega (arith, split, weight_sum-cons e after, high)

  spin_reel-some :
      (reel : ℕ)
      → HasWeights s reel
      → (symbol : ℕ) × (spin_reel env who reel s ≡ ok symbol) × IsSymbol s reel symbol
  spin_reel-some reel r =
      let (e, found, has, positive) =
        select-some r.weights (reel_number reel % weight_sum r.weights) 0 (omega (arith, r.small))
          (omega arith) (omega (arith, mod-lt (reel_number reel) r.positive)) in
      (
        e.0,
        spin_reel-select reel r.weights e.0 r.stored r.positive r.small found,
        (r.weights, r.stored, e, refl, has, positive),
      )

  -- The symbols of the reels, from `reel` on.
  abbrev pub Symbols : ℕ → List ℕ → Type 0
  Symbols reel [] = Unit
  Symbols reel (x ∷ xs) = IsSymbol s reel x × Symbols (reel + 1) xs

  pub spin-some :
      (left reel : ℕ)
      → ((k : ℕ) → k < reel + left → HasWeights s k)
      → (result : List ℕ) × (spin env who left reel s ≡ ok result)
        × (length result ≡ left)
        × Symbols reel result
  unfolding spin
  spin-some zero reel all = ([], refl, refl, tt)
  spin-some (suc left) reel all =
      let (symbol, shown, is) = spin_reel-some reel (all reel (omega arith)) in
      let (later, spun, n, are) = spin-some left (reel + 1) (λ k lt. all k (omega (arith, lt))) in
      (symbol ∷ later, rw (shown, spun) refl, ap suc n, (is, are))
