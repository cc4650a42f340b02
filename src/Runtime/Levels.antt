-- ===== src/Runtime/Levels.antt =====
-- The calls of pallets/eterra-gamer/src/lib.rs keep every level at 99 at most.
use eterra_polkadot_sdk_solo.Prelude.{
  ℕ, ◌≤◌, ◌≡◌, refl, leb, ltb, length, is_some, inl, inr, true, false, Bool, List, Option-cases,
}
use eterra_polkadot_sdk_solo.Prelude.Maps.{update-cases}
use eterra_polkadot_sdk_solo.Prelude.Results.{Origin}
use eterra_polkadot_sdk_solo.Prelude.Ensures.{
  Ensures, Ensures-bind, ensure-bind, signed-bind, if-Ensures,
}
use eterra_polkadot_sdk_solo.Gamer.{
  Store, Env, tag_too_long, tag_too_short, avatar_cid_invalid_ascii, avatar_cid_too_long,
  invalid_level_request, already_max_level, not_enough_experience, validate_ascii_cid,
  charge_change_fee_if_needed, set_gamer_tag, set_avatar, grant_experience, redeem_levels,
  deposit_event,
}
use eterra_polkadot_sdk_solo.Gamer.Levels.{redeem_all_levels-Redeemed}
use eterra_polkadot_sdk_solo.Runtime.Calls.{
  GamerCall, sets_gamer_tag, sets_avatar, grants_experience, redeems_levels, dispatch_gamer,
}

module _ {B : Type 0} where
  -- No level is above 99.
  abbrev pub IsLow : Store B → Type 0
  IsLow s = (a : ℕ) → s.level a ≤ 99

  charge-Ensures :
      (env : Env B) (who : ℕ) (set : Bool) (s : Store B)
      → Ensures (λ r. r.1.level ≡ s.level) (charge_change_fee_if_needed env who set s)
  unfolding charge_change_fee_if_needed
  charge-Ensures env who false s = refl
  charge-Ensures env who true s =
      elim (Option-cases (env.transfer who env.faucet_account env.change_fee s.balances)) [
        | inl refused ↦ rw refused tt
        | inr (b, paid) ↦ rw paid refl
      ]

  set_gamer_tag-Ensures :
      (env : Env B) (origin : Origin) (tag : List ℕ) (s : Store B)
      → IsLow s
      → Ensures IsLow (set_gamer_tag env origin tag s)
  unfolding set_gamer_tag deposit_event
  set_gamer_tag-Ensures env origin tag s low = signed-bind IsLow origin _ λ who _.
      ensure-bind IsLow (leb (length tag) env.max_tag_len) tag_too_long _ λ _.
        ensure-bind IsLow (leb 1 (length tag)) tag_too_short _ λ _.
          Ensures-bind (λ r. r.1.level ≡ s.level) IsLow
            (charge_change_fee_if_needed env who (is_some (s.gamer_tag who)) s) _
            (charge-Ensures env who (is_some (s.gamer_tag who)) s) λ r same a. rw same (low a)

  set_avatar-Ensures :
      (env : Env B) (origin : Origin) (cid : List ℕ) (s : Store B)
      → IsLow s
      → Ensures IsLow (set_avatar env origin cid s)
  unfolding set_avatar deposit_event
  set_avatar-Ensures env origin cid s low = signed-bind IsLow origin _ λ who _.
      ensure-bind IsLow (validate_ascii_cid cid) avatar_cid_invalid_ascii _ λ _.
        ensure-bind IsLow (leb (length cid) env.max_avatar_cid_len) avatar_cid_too_long _ λ _.
          Ensures-bind (λ r. r.1.level ≡ s.level) IsLow
            (charge_change_fee_if_needed env who (is_some (s.avatar_cid who)) s) _
            (charge-Ensures env who (is_some (s.avatar_cid who)) s) λ r same a. rw same (low a)

  redeem_levels-Ensures :
      (origin : Origin) (s : Store B) → IsLow s → Ensures IsLow (redeem_levels origin s)
  unfolding redeem_levels deposit_event
  redeem_levels-Ensures origin s low = signed-bind IsLow origin _ λ who _.
      ensure-bind IsLow (leb (s.level who) 99) invalid_level_request _ λ _.
        ensure-bind IsLow (ltb (s.level who) 99) already_max_level _ λ _.
          let (r, ends, redeemed) =
            redeem_all_levels-Redeemed (s.level who) (s.experience who) (low who) in
          rw ends (
            ensure-bind IsLow (ltb 0 r.2) not_enough_experience _ λ _ a.
              update-cases (λ l. l ≤ 99) s.level who r.0 a (λ own. redeemed.bound) (λ other. low a))

  pub dispatch_gamer-Ensures :
      (env : Env B) (origin : Origin) (c : GamerCall) (s : Store B)
      → IsLow s
      → Ensures IsLow (dispatch_gamer env origin c s)
  unfolding dispatch_gamer grant_experience deposit_event
  dispatch_gamer-Ensures env origin (sets_gamer_tag tag) s low =
      set_gamer_tag-Ensures env origin tag s low
  dispatch_gamer-Ensures env origin (sets_avatar cid) s low =
      set_avatar-Ensures env origin cid s low
  dispatch_gamer-Ensures env origin (grants_experience to amount) s low =
      if-Ensures IsLow (env.is_issuer origin) _ _ (λ may. low) (λ may_not. tt)
  dispatch_gamer-Ensures env origin redeems_levels s low = redeem_levels-Ensures origin s low
