-- ===== src/DailySlots/Roll.antt =====
-- The call `roll` of pallets/eterra-daily-slots/src/lib.rs.
use eterra_polkadot_sdk_solo.Prelude.{
  ℕ, ◌+◌, ◌/◌, ◌==◌, ltb, leb, if◌then◌else◌, Bool, true, false, ◌&&◌, List, [], ◌∷◌, ◌++◌, length,
  update, saturating_add, u32_max,
}
use eterra_polkadot_sdk_solo.Prelude.Results.{
  Result, ok, panic, Origin, ensure_signed, ensure, ◌>>=◌, ◌>>◌,
}
use eterra_polkadot_sdk_solo.DailySlots.Types.{
  Error, invalid_configuration, exceed_rolls_per_round, slot_rolled, win_rewarded, RollResult,
  Store, Env,
}
use eterra_polkadot_sdk_solo.DailySlots.Reels.{spin}

unfoldable pub all_equal : ℕ → List ℕ → Bool
all_equal first [] = true
all_equal first (x ∷ xs) = (x == first) && all_equal first xs

unfoldable pub is_win : List ℕ → Bool
unfolding all_equal
is_win [] = false
is_win (first ∷ xs) = all_equal first (first ∷ xs)

-- How often the ticket symbol, 7, was rolled.
unfoldable pub count_tickets : List ℕ → ℕ
count_tickets [] = 0
count_tickets (x ∷ xs) = let rest = count_tickets xs in if x == 7 then rest + 1 else rest

-- `TicketsPerUser::mutate`. A new key takes the place that the order of the keys gives it.
unfoldable pub add_tickets : (ℕ → ℕ) → ℕ → ℕ → List (ℕ × ℕ) → List (ℕ × ℕ)
add_tickets order who n [] = (who, saturating_add u32_max 0 n) ∷ []
add_tickets order who n (e ∷ es) =
    let rest = add_tickets order who n es in
    if e.0 == who
    then (who, saturating_add u32_max e.1 n) ∷ es
    else (if ltb (order who) (order e.0)
        then (who, saturating_add u32_max 0 n) ∷ e ∷ es
        else e ∷ rest)

abbrev pub drop_first : List RollResult → List RollResult
drop_first [] = []
drop_first (x ∷ xs) = xs

-- A full history loses its oldest entry, and `try_push` does nothing beyond the bound.
unfoldable pub pushed : ℕ → List RollResult → RollResult → List RollResult
pushed bound history entry =
    let kept = (if leb bound (length history) then drop_first history else history) in
    if ltb (length kept) bound then kept ++ entry ∷ [] else kept

module _ {B : Type 0} where
  unfoldable pub award_tickets : Env B → ℕ → List ℕ → Store B → Store B
  unfolding count_tickets add_tickets
  award_tickets env who result s =
      let tickets = count_tickets result in
      if ltb 0 tickets
      then record s {
        tickets_per_user = add_tickets env.key_order who tickets s.tickets_per_user;
        total_tickets = saturating_add u32_max s.total_tickets tickets;
      }
      else s

  unfoldable pub pay_out : Env B → ℕ → List ℕ → Store B → Store B
  unfolding is_win
  pay_out env who result s =
      if is_win result
      then record s {
        balances = env.deposit_creating who env.reward_per_win s.balances;
        events = win_rewarded who env.reward_per_win ∷ s.events;
      }
      else s

  -- `remove(0)` on an empty history panics.
  unfoldable pub push_history : Env B → ℕ → RollResult → Store B → Result Error (Store B)
  unfolding pushed
  push_history env who entry s =
      let history = s.roll_history who in
      if leb env.max_history (length history) && (length history == 0)
      then panic
      else ok (record s {
        roll_history = update s.roll_history who (pushed env.max_history history entry);
      })

  -- The rolls that the account has used up in the window.
  unfoldable pub used_rolls : Env B → ℕ → Store B → ℕ
  used_rolls env who s =
      if (s.rolls_this_window who).0 == env.block_number / 3600
      then (s.rolls_this_window who).1
      else 0

  -- The writes and the events of a roll.
  unfoldable pub settle : Env B → ℕ → ℕ → List ℕ → Store B → Store B
  unfolding award_tickets pay_out
  settle env who used result s =
      let s1 = record s {
        rolls_this_window = update s.rolls_this_window who (env.block_number / 3600, used + 1);
        last_roll_time = update s.last_roll_time who env.now_secs;
      } in
      let s2 = pay_out env who result (award_tickets env who result s1) in
      record s2 { events = slot_rolled who result ∷ s2.events }

  unfoldable pub roll : Env B → Origin → Store B → Result Error (Store B)
  unfolding spin settle push_history used_rolls
  roll env origin s = do
    who ← ensure_signed origin
    ensure (ltb 0 env.slot_length && ltb 0 env.options_per_slot && ltb 0 env.max_rolls)
        invalid_configuration
    let used = used_rolls env who s
    ensure (ltb used env.max_rolls) exceed_rolls_per_round
    result ← spin env who env.slot_length 0 s
    let s1 = settle env who used result s
    ensure (leb (length result) env.slot_length) invalid_configuration
    push_history env who (record { timestamp = env.now_secs; result = result }) s1
