-- ===== src/DailySlots/Rolled.antt =====
-- What the call `roll` of pallets/eterra-daily-slots/src/lib.rs does to the storage.
use eterra_polkadot_sdk_solo.Prelude.{
  ℕ, ◌+◌, ◌/◌, ◌<◌, ◌≡◌, refl, sym, ap, ◌∙◌, ltb, ltb→lt, leb, ◌==◌, if◌then◌else◌, Bool, true,
  false, ◌&&◌, inl, inr, Bool-cases, List, length, update,
}
use eterra_polkadot_sdk_solo.Prelude.Results.{Result, ok, panic, Origin, signed}
use eterra_polkadot_sdk_solo.Prelude.Ensures.{signed-eq-ok, ensure-eq-ok, >>=-eq-ok, ok_injective}
use eterra_polkadot_sdk_solo.DailySlots.Types.{Error, RollResult, Store, Env}
use eterra_polkadot_sdk_solo.DailySlots.Reels.{spin}
use eterra_polkadot_sdk_solo.DailySlots.Roll.{
  award_tickets, pay_out, pushed, push_history, settle, is_win, count_tickets, used_rolls, roll,
}

-- What a roll that succeeds has done to the storage.
pub record Rolled {B : Type 0} (env : Env B) (who : ℕ) (s t : Store B) : Type 0 where
  pub below : used_rolls env who s < env.max_rolls
  pub result : List ℕ
  pub spun : spin env who env.slot_length 0 s ≡ ok result
  pub windows :
      t.rolls_this_window
      ≡ update s.rolls_this_window who (env.block_number / 3600, used_rolls env who s + 1)
  pub tickets : t.tickets_per_user ≡ (award_tickets env who result s).tickets_per_user
  pub total : t.total_tickets ≡ (award_tickets env who result s).total_tickets
  pub history :
      t.roll_history
      ≡ update s.roll_history who (
          pushed env.max_history
            (s.roll_history who)
            (record { timestamp = env.now_secs; result = result }))

push_history-eq-ok :
    {B : Type 0} (env : Env B) (who : ℕ) (entry : RollResult) (s t : Store B)
    → push_history env who entry s ≡ ok t
    → t ≡ record s {
      roll_history = update s.roll_history who (pushed env.max_history (s.roll_history who) entry);
    }
unfolding push_history
push_history-eq-ok {B = B} env who entry s t e =
    read (leb env.max_history (length (s.roll_history who)) && (length (s.roll_history who) == 0)) e
  where
    read :
        (b : Bool)
        → if◌then◌else◌ {A = Result Error (Store B)} b panic (
            ok (record s {
              roll_history =
                  update s.roll_history who (pushed env.max_history (s.roll_history who) entry);
            }))
          ≡ ok t
        → t ≡ record s {
          roll_history =
              update s.roll_history who (pushed env.max_history (s.roll_history who) entry);
        }
    read true e = cc
    read false e = sym (ok_injective e)

-- What the writes of a roll leave of the storage before.
pub settle-keeps :
    {B : Type 0} (env : Env B) (who used : ℕ) (result : List ℕ) (s : Store B)
    → let t = settle env who used result s in
      (t.rolls_this_window ≡ update s.rolls_this_window who (env.block_number / 3600, used + 1))
      × (t.tickets_per_user ≡ (award_tickets env who result s).tickets_per_user)
      × (t.total_tickets ≡ (award_tickets env who result s).total_tickets)
      × (t.roll_history ≡ s.roll_history)
unfolding settle pay_out award_tickets
settle-keeps env who used result s = elim (Bool-cases (is_win result)) [
  | inl wins ↦ rw wins (elim (Bool-cases (ltb 0 (count_tickets result))) [
    | inl some_tickets ↦ rw some_tickets (refl, refl, refl, refl)
    | inr no_tickets ↦ rw no_tickets (refl, refl, refl, refl)
  ])
  | inr loses ↦ rw loses (elim (Bool-cases (ltb 0 (count_tickets result))) [
    | inl some_tickets ↦ rw some_tickets (refl, refl, refl, refl)
    | inr no_tickets ↦ rw no_tickets (refl, refl, refl, refl)
  ])
]

pub roll-Rolled :
    {B : Type 0} (env : Env B) (origin : Origin) (s t : Store B)
    → roll env origin s ≡ ok t
    → (who : ℕ) × (origin ≡ signed who) × Rolled env who s t
unfolding roll
roll-Rolled env origin s t e =
    let (who, is, e1) = signed-eq-ok origin _ e in
    let (configured, e2) = ensure-eq-ok _ _ _ e1 in
    let (below, e3) = ensure-eq-ok _ _ _ e2 in
    let (result, spun, e4) = >>=-eq-ok _ _ e3 in
    let (fits, e5) = ensure-eq-ok _ _ _ e4 in
    let q =
      push_history-eq-ok env who (record { timestamp = env.now_secs; result = result })
        (settle env who (used_rolls env who s) result s) t e5 in
    let (windows, tickets, total, history) = settle-keeps env who (used_rolls env who s) result s in
    (
      who,
      is,
      record {
        below = ltb→lt _ _ below;
        result = result;
        spun = spun;
        windows = ap (λ z. z.rolls_this_window) q ∙ windows;
        tickets = ap (λ z. z.tickets_per_user) q ∙ tickets;
        total = ap (λ z. z.total_tickets) q ∙ total;
        history =
            ap (λ z. z.roll_history) q
            ∙ ap
                (λ h. update h who (
                  pushed env.max_history (h who)
                    (record { timestamp = env.now_secs; result = result })))
                history;
      },
    )
