-- ===== src/Gamer/Levels.antt =====
-- The redemption of experience in pallets/eterra-gamer/src/lib.rs.
use eterra_polkadot_sdk_solo.Prelude.{
  ℕ, zero, suc, ◌+◌, ◌-◌, ◌≤◌, ◌<◌, ◌≡◌, refl, ltb, true, false, some, arith, saturating_add,
  u8_max, Bool-cases, inl, inr, ◌⊎◌, ◌∙◌,
}
use eterra_polkadot_sdk_solo.Gamer.{exp_required_for_level, redeem_loop, redeem_all_levels}

-- The experience that the levels up to `l` have cost.
unfoldable pub spent : ℕ → ℕ
spent zero = 0
spent (suc l) = spent l + exp_required_for_level (suc l)

-- What the loop owes, from a level, an amount of experience and a count of gained levels.
pub record Redeemed (lvl xp gained : ℕ) (r : ℕ × ℕ × ℕ) : Type 0 where
  pub bound : r.0 ≤ 99
  pub count : r.2 + lvl ≡ gained + r.0
  pub worth : r.1 + spent r.0 ≡ xp + spent lvl
  pub maximal : (r.0 ≡ 99) ⊎ (r.1 < exp_required_for_level (r.0 + 1))

-- A round in which a level is gained.
redeem_loop-suc :
    (fuel lvl xp gained : ℕ)
    → ltb lvl 99 ≡ true
    → ltb xp (exp_required_for_level (lvl + 1)) ≡ false
    → gained ≤ lvl
    → redeem_loop (suc fuel) lvl xp gained
      ≡ redeem_loop fuel (lvl + 1) (xp - exp_required_for_level (lvl + 1)) (gained + 1)
unfolding redeem_loop
redeem_loop-suc fuel lvl xp gained below enough few =
    let up : saturating_add u8_max lvl 1 ≡ lvl + 1 = ground (arith, below) in
    let more : saturating_add u8_max gained 1 ≡ gained + 1 = ground (arith, below) in
    rw (below, enough, up, more) refl

redeem_loop-Redeemed :
    (fuel lvl xp gained : ℕ)
    → lvl ≤ 99
    → 99 < lvl + fuel
    → gained ≤ lvl
    → (r : ℕ × ℕ × ℕ) × (redeem_loop fuel lvl xp gained ≡ some r) × Redeemed lvl xp gained r
unfolding redeem_loop
redeem_loop-Redeemed zero lvl xp gained hi enough few = absurd (omega arith)
redeem_loop-Redeemed (suc fuel) lvl xp gained hi enough few = elim (Bool-cases (ltb lvl 99)) [
  | inr top ↦ (
    (lvl, xp, gained),
    rw top refl,
    record { bound = hi; count = omega arith; worth = refl; maximal = inl (ground (arith, top)) },
  )
  | inl below ↦ elim (Bool-cases (ltb xp (exp_required_for_level (lvl + 1)))) [
    | inl short ↦ (
      (lvl, xp, gained),
      rw (below, short) refl,
      record {
        bound = hi;
        count = omega arith;
        worth = refl;
        maximal = inr (ground (arith, short));
      },
    )
    | inr enough_xp ↦
        let (r, e, d) =
          redeem_loop-Redeemed fuel (lvl + 1) (xp - exp_required_for_level (lvl + 1)) (gained + 1)
            (ground (arith, below)) (omega arith) (omega arith) in
        (
          r,
          redeem_loop-suc fuel lvl xp gained below enough_xp few ∙ e,
          record {
            bound = d.bound;
            count = omega (arith, d.count);
            worth = paid_for lvl xp r.0 r.1 d.worth enough_xp;
            maximal = d.maximal;
          },
        )
  ]
]
  where
    paid_for :
        (l x l' x' : ℕ)
        → x' + spent l' ≡ (x - exp_required_for_level (l + 1)) + spent (l + 1)
        → ltb x (exp_required_for_level (l + 1)) ≡ false
        → x' + spent l' ≡ x + spent l
    paid_for l x l' x' e not_short = unfold spent in ground (arith, e, not_short)

-- From a level of at most 99 the redemption ends. The level does not pass 99, the levels gained are
-- counted, the experience that is left and that the levels have cost add up to what they were, and
-- it stops only at level 99 or where the next level costs more than what is left.
pub redeem_all_levels-Redeemed :
    (lvl xp : ℕ)
    → lvl ≤ 99
    → (r : ℕ × ℕ × ℕ) × (redeem_all_levels lvl xp ≡ some r) × Redeemed lvl xp 0 r
unfolding redeem_all_levels
redeem_all_levels-Redeemed lvl xp hi =
    redeem_loop-Redeemed 100 lvl xp 0 hi (omega arith) (omega arith)
