-- ===== src/Gamer/Examples.antt =====
-- A concrete run of the redemption in pallets/eterra-gamer/src/lib.rs.
use eterra_polkadot_sdk_solo.Prelude.{ℕ, ◌≡◌, refl, some, arith}
use eterra_polkadot_sdk_solo.Gamer.{redeem_all_levels, redeem_loop, exp_required_for_level}
use eterra_polkadot_sdk_solo.Gamer.Levels.{Redeemed, redeem_all_levels-Redeemed}

two_levels : redeem_all_levels 0 10000 ≡ some (2, 361, 2)
unfolding redeem_all_levels redeem_loop exp_required_for_level
two_levels = refl

redeem_all_levels-Redeemed_example :
    (r : ℕ × ℕ × ℕ) × (redeem_all_levels 0 10000 ≡ some r) × Redeemed 0 10000 0 r
redeem_all_levels-Redeemed_example = redeem_all_levels-Redeemed 0 10000 (omega arith)
