-- ===== src/Gamer.antt =====
-- Player profiles, pallets/eterra-gamer/src/lib.rs: tags, avatars, experience and levels.
pub mod Levels
pub mod Examples
use eterra_polkadot_sdk_solo.Prelude.{
  ℕ, zero, suc, ◌+◌, ◌-◌, ◌*◌, ◌/◌, ◌%◌, ◌^◌, ◌==◌, leb, ltb, if◌then◌else◌, Bool, true, false,
  Option, none, some, is_some, List, [], ◌∷◌, length, update, saturating_add, u8_max,
}
use eterra_polkadot_sdk_solo.Prelude.Results.{
  Result, ok, err, bad_origin, panic, Origin, ensure_signed, ensure, ok_or, ◌>>=◌, ◌>>◌,
}

abbrev pub u128_max : ℕ
u128_max = 340282366920938463463374607431768211455

pub data Event : Type 0 where
  tag_set avatar_set : ℕ → List ℕ → Bool → Event
  experience_granted : ℕ → ℕ → Event
  level_up : ℕ → ℕ → Event

pub data Error : Type 0 where
  tag_too_short tag_too_long avatar_cid_too_long avatar_cid_invalid_ascii already_max_level : Error
  not_enough_experience insufficient_balance_for_change invalid_level_request : Error

-- One field for each storage item, the events, newest first, and the currency's storage.
pub record Store (B : Type 0) : Type 0 where
  pub gamer_tag : ℕ → Option (List ℕ)
  pub avatar_cid : ℕ → Option (List ℕ)
  pub experience : ℕ → ℕ
  pub level : ℕ → ℕ
  pub events : List Event
  pub balances : B

-- The configuration: the currency's transfer, which fails or gives its new storage, and the origins
-- that may grant experience.
pub record Env (B : Type 0) : Type 0 where
  pub transfer : ℕ → ℕ → ℕ → B → Option B
  pub change_fee : ℕ
  pub faucet_account : ℕ
  pub max_tag_len : ℕ
  pub max_avatar_cid_len : ℕ
  pub is_issuer : Origin → Bool

unfoldable pub visible_ascii : List ℕ → Bool
visible_ascii [] = true
visible_ascii (b ∷ bs) =
    let rest = visible_ascii bs in if leb 33 b then (if leb b 126 then rest else false) else false

unfoldable pub validate_ascii_cid : List ℕ → Bool
unfolding visible_ascii
validate_ascii_cid [] = false
validate_ascii_cid (b ∷ bs) = visible_ascii (b ∷ bs)

abbrev pub k_num : ℕ
k_num = 3046373812

abbrev pub k_den : ℕ
k_den = 1000000

-- `l * l - 1` wraps at level 0, and the product saturates, in `u128`.
unfoldable pub exp_required_for_level : ℕ → ℕ
exp_required_for_level l =
    let term = (l * l + u128_max) % (u128_max + 1) in
    let product = (if leb (k_num * term) u128_max then k_num * term else u128_max) in
    if l == 1 then 250 else 250 + saturating_add u128_max product (k_den / 2) / k_den

-- The loop of `redeem_all_levels`; `none` means that the fuel ran out.
unfoldable pub redeem_loop : ℕ → ℕ → ℕ → ℕ → Option (ℕ × ℕ × ℕ)
redeem_loop zero lvl xp gained = none
redeem_loop (suc fuel) lvl xp gained =
    let need = exp_required_for_level (lvl + 1) in
    let rest =
      redeem_loop fuel (saturating_add u8_max lvl 1) (xp - need) (saturating_add u8_max gained 1) in
    if ltb lvl 99
    then (if ltb xp need then some (lvl, xp, gained) else rest)
    else some (lvl, xp, gained)

unfoldable pub redeem_all_levels : ℕ → ℕ → Option (ℕ × ℕ × ℕ)
unfolding redeem_loop
redeem_all_levels lvl xp = redeem_loop 100 lvl xp 0

module _ {B : Type 0} where
  unfoldable pub deposit_event : Event → Store B → Store B
  deposit_event e s = record s { events = e ∷ s.events }

  -- Whether the fee was charged, and the storage after it.
  unfoldable pub charge_change_fee_if_needed :
      Env B → ℕ → Bool → Store B → Result Error (Bool × Store B)
  charge_change_fee_if_needed env who already_set s =
      if already_set
      then (elim (env.transfer who env.faucet_account env.change_fee s.balances) [
        | none ↦ err insufficient_balance_for_change
        | some b ↦ ok (true, record s { balances = b })
      ])
      else ok (false, s)

  unfoldable pub set_gamer_tag : Env B → Origin → List ℕ → Store B → Result Error (Store B)
  unfolding charge_change_fee_if_needed deposit_event
  set_gamer_tag env origin tag s = do
    who ← ensure_signed origin
    ensure (leb (length tag) env.max_tag_len) tag_too_long
    ensure (leb 1 (length tag)) tag_too_short
    r ← charge_change_fee_if_needed env who (is_some (s.gamer_tag who)) s
    let t = r.1
    ok (
        deposit_event (tag_set who tag r.0)
          (record t { gamer_tag = update t.gamer_tag who (some tag) }))

  unfoldable pub set_avatar : Env B → Origin → List ℕ → Store B → Result Error (Store B)
  unfolding charge_change_fee_if_needed deposit_event validate_ascii_cid
  set_avatar env origin cid s = do
    who ← ensure_signed origin
    ensure (validate_ascii_cid cid) avatar_cid_invalid_ascii
    ensure (leb (length cid) env.max_avatar_cid_len) avatar_cid_too_long
    r ← charge_change_fee_if_needed env who (is_some (s.avatar_cid who)) s
    let t = r.1
    ok (
        deposit_event (avatar_set who cid r.0)
          (record t { avatar_cid = update t.avatar_cid who (some cid) }))

  unfoldable pub grant_experience : Env B → Origin → ℕ → ℕ → Store B → Result Error (Store B)
  unfolding deposit_event
  grant_experience env origin to amount s =
      if env.is_issuer origin
      then ok (
          deposit_event (experience_granted to amount) (record s {
            experience = update s.experience to (saturating_add u128_max (s.experience to) amount);
          }))
      else bad_origin

  -- `panic` stands for a loop that did not end, and is never reached.
  unfoldable pub redeem_levels : Origin → Store B → Result Error (Store B)
  unfolding redeem_all_levels deposit_event
  redeem_levels origin s = do
    who ← ensure_signed origin
    ensure (leb (s.level who) 99) invalid_level_request
    ensure (ltb (s.level who) 99) already_max_level
    elim (redeem_all_levels (s.level who) (s.experience who)) [
      | none ↦ panic
      | some (new_level, new_xp, gained) ↦
          ensure (ltb 0 gained) not_enough_experience
          >> ok (
              deposit_event (level_up who new_level) (record s {
                level = update s.level who new_level;
                experience = update s.experience who new_xp;
              }))
    ]
