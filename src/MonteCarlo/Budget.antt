-- ===== src/MonteCarlo/Budget.antt =====
-- How many playouts the search of pallets/eterra-monte-carlo-ai/src/lib.rs makes, and the range of
-- their sums.
use native.Mathlib.Nat.{div-le_self, div-mul-le_self, le-div_iff_mul-le}
use eterra_polkadot_sdk_solo.Prelude.{ℕ, ◌+◌, ◌*◌, ◌/◌, ◌≤◌, ◌<◌, ◌≡◌, arith, u32_mod}
use eterra_polkadot_sdk_solo.Prelude.Int.{ℤ, pos, negsuc}
use eterra_polkadot_sdk_solo.Prelude.Panics.{Returns, Returns-map}
use eterra_polkadot_sdk_solo.MonteCarlo.{
  GameAdapter, Config, max, scaled_iterations, sims_per_action, simulate,
}
use eterra_polkadot_sdk_solo.MonteCarlo.Laws.{Lawful, Within}
use eterra_polkadot_sdk_solo.MonteCarlo.Playouts.{simulate-Within}

max_upper : (a b : ℕ) → (a ≤ max a b) × (b ≤ max a b)
max_upper a b = ground arith

max_cases : (a b c : ℕ) → a ≤ c → b ≤ c → max a b ≤ c
max_cases a b c h k = ground arith

scaled_iterations-small :
    (config : Config) (difficulty : ℕ) → scaled_iterations config difficulty < u32_mod
unfolding scaled_iterations
scaled_iterations-small config difficulty = omega arith

-- For any number of actions but 0: each action is played out at least once, and all of them together
-- at most as often as the scaled iterations say, or once each where there are more actions.
pub sims_per_action-budget :
    (config : Config) (difficulty n : ℕ)
    → 0 < n
    → (1 ≤ sims_per_action config difficulty n)
      × (sims_per_action config difficulty n * n ≤ max (scaled_iterations config difficulty) n)
unfolding sims_per_action
sims_per_action-budget config difficulty n positive =
    let total = max (scaled_iterations config difficulty) n in
    let one : 1 ≤ total / n =
      (le-div_iff_mul-le positive).1
        (omega (arith, (max_upper (scaled_iterations config difficulty) n).1)) in
    let same : max (total / n) 1 ≡ total / n = ground (arith, one) in
    rw same (one, div-mul-le_self total n)

sims_per_action-small :
    (config : Config) (difficulty n : ℕ)
    → n < u32_mod
    → sims_per_action config difficulty n < u32_mod
unfolding sims_per_action
sims_per_action-small config difficulty n small =
    let s = scaled_iterations config difficulty in
    let le : max s n / n ≤ max s n = div-le_self (max s n) n in
    let most : max s n ≤ 4294967295 =
      max_cases s n 4294967295 (omega (arith, scaled_iterations-small config difficulty))
        (omega (arith, small)) in
    let both : max (max s n / n) 1 ≤ 4294967295 =
      max_cases (max s n / n) 1 4294967295 (omega (arith, le, most)) (omega arith) in
    omega (arith, both)

Within-weaken : (b c : ℕ) (a : ℤ) → b ≤ c → Within b a → Within c a
Within-weaken b c (pos n) le h = omega (arith, le, h)
Within-weaken b c (negsuc n) le h = omega (arith, le, h)

-- Over a lawful adapter, at a valid state, for a legal action and at most 128 actions, the sum of the
-- playouts of that action is within the range of an `i64`, so adding them up does not overflow.
pub simulate-fits :
    {State Action Player : Type 0} (game : GameAdapter State Action Player) (config : Config)
    {Valid : State → Type 0} {Legal : State → Action → Type 0} (laws : Lawful game Valid Legal)
    (s : State) (a : Action) (me : Player) (i difficulty n nonce : ℕ)
    → Valid s
    → Legal s a
    → n ≤ 128
    → Returns
        (λ r. Within 9223372036854775807 r.0)
        (simulate game config s a me i (sims_per_action config difficulty n) 0 (pos 0) nonce)
simulate-fits game config laws s a me i difficulty n nonce v legal few =
    let sims = sims_per_action config difficulty n in
    let small : sims < u32_mod = sims_per_action-small config difficulty n (omega (arith, few)) in
    Returns-map (λ r. Within (0 + sims * 2147483647) r.0) (λ r. Within 9223372036854775807 r.0)
      (simulate game config s a me i sims 0 (pos 0) nonce)
      (simulate-Within game config laws s a me i sims 0 0 (pos 0) nonce v legal (omega arith))
      (λ r h.
        Within-weaken (0 + sims * 2147483647) 9223372036854775807 r.0 (omega (arith, small)) h)
