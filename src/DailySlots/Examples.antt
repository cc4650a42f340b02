-- ===== src/DailySlots/Examples.antt =====
-- A concrete run of the slot machine, pallets/eterra-daily-slots/src/lib.rs.
use eterra_polkadot_sdk_solo.Prelude.{
  ℕ, zero, suc, ◌+◌, ◌%◌, ◌≤◌, ◌<◌, ◌≡◌, refl, List, [], ◌∷◌, length, ◌⊎◌, arith,
}
use eterra_polkadot_sdk_solo.Prelude.Results.{Result, ok, err, root, signed}
use eterra_polkadot_sdk_solo.Prelude.Each.{Has}
use eterra_polkadot_sdk_solo.DailySlots.Types.{Error, exceed_rolls_per_round, Entry, Store, Env}
use eterra_polkadot_sdk_solo.DailySlots.Reels.{
  select, total_weight, spin_reel, spin, update_reel_weights, update_all, set_all_reel_weights,
}
use eterra_polkadot_sdk_solo.DailySlots.Roll.{
  all_equal, is_win, count_tickets, add_tickets, award_tickets, pay_out, pushed, push_history,
  used_rolls, settle, roll,
}
use eterra_polkadot_sdk_solo.DailySlots.Drawing.{perform_weekly_drawing}
use eterra_polkadot_sdk_solo.DailySlots.Selection.{weight_sum, HasWeights, Symbols, spin_reel-share}
use eterra_polkadot_sdk_solo.DailySlots.Tickets.{Accounted}
use eterra_polkadot_sdk_solo.DailySlots.History.{
  genesis, own_roll, sets_all, History, start, step, History-bounds,
}
use eterra_polkadot_sdk_solo.DailySlots.Winner.{
  drawn, perform_weekly_drawing-share, perform_weekly_drawing-first,
}
use eterra_polkadot_sdk_solo.DailySlots.Outcome.{IsReady, Stores, roll-outcome}

-- The currency is a single number.
abbrev env : Env ℕ
env = record {
  slot_length = 3;
  options_per_slot = 8;
  max_rolls = 3;
  max_history = 10;
  max_weight_entries = 4;
  reward_per_win = 100;
  block_number = 20;
  now_secs = 1000;
  deposit_creating = λ who amount b. b + amount;
  key_order = λ a. a;
  reel_hash = λ now who reel block window. 9 + reel;
  drawing_byte = λ now block. 1;
}

-- Hash 9 shows symbol 7 on the first reel, as 9 % 4 = 1 and the first entry has weight 1.
abbrev weights : List (ℕ × List Entry)
weights = (0, (3, 1) ∷ (7, 2) ∷ (4, 1) ∷ []) ∷ (1, (7, 1) ∷ []) ∷ (2, (7, 5) ∷ []) ∷ []

abbrev stored : Result Error (Store ℕ) → Store ℕ
stored (ok s) = s
stored _ = genesis 0

abbrev weighted : Store ℕ
unfolding set_all_reel_weights update_all update_reel_weights
weighted = stored (set_all_reel_weights env root weights (genesis 0))

sets_weights : set_all_reel_weights env root weights (genesis 0) ≡ ok weighted
unfolding set_all_reel_weights update_all update_reel_weights
sets_weights = refl

abbrev rolled : Store ℕ
unfolding set_all_reel_weights update_all update_reel_weights weighted roll spin spin_reel select
    total_weight used_rolls settle award_tickets count_tickets add_tickets pay_out is_win all_equal
    push_history pushed
rolled = stored (roll env (signed 5) weighted)

rolls : roll env (signed 5) weighted ≡ ok rolled
unfolding set_all_reel_weights update_all update_reel_weights weighted roll spin spin_reel select
    total_weight used_rolls settle award_tickets count_tickets add_tickets pay_out is_win all_equal
    push_history pushed rolled
rolls = refl

-- All three reels show 7, which wins and gives three tickets.
won : (rolled.balances ≡ 100) × (rolled.tickets_per_user ≡ (5, 3) ∷ []) × (rolled.total_tickets ≡ 3)
unfolding set_all_reel_weights update_all update_reel_weights weighted roll spin spin_reel select
    total_weight used_rolls settle award_tickets count_tickets add_tickets pay_out is_win all_equal
    push_history pushed rolled
won = (refl, refl, refl)

past : History 3 10 5 20 1 rolled
past =
    step (step (start 20 0) env refl refl (omega arith) (sets_all root weights sets_weights)) env
      refl refl (omega arith) (own_roll rolls)

History-bounds_example :
    (1 ≤ 3)
    × ((who : ℕ) → length (rolled.roll_history who) ≤ 10)
    × Accounted rolled.total_tickets rolled.tickets_per_user
History-bounds_example = History-bounds past

perform_weekly_drawing-share_example : perform_weekly_drawing env rolled ≡ drawn env 5 rolled
unfolding weight_sum
perform_weekly_drawing-share_example =
    perform_weekly_drawing-share env past (omega (arith, won.2)) (omega (arith, won.2)) [] (5, 3) []
      won.1 (omega arith) (pick_small rolled.total_tickets won.2)
  where
    pick_small : (total : ℕ) → total ≡ 3 → 1 % total < 0 + 3
    pick_small total e = rw e (omega arith)

perform_weekly_drawing-first_example :
    (e : ℕ × ℕ) × Has e ((5, 3) ∷ [])
    × (0 < e.1)
    × (perform_weekly_drawing env rolled ≡ drawn env e.0 rolled)
unfolding weight_sum
perform_weekly_drawing-first_example =
    perform_weekly_drawing-first env past (omega (arith, won.2)) ((5, 3) ∷ []) [] won.1
      (omega arith)

spin_reel-share_example : spin_reel env 5 0 weighted ≡ ok 7
unfolding weight_sum set_all_reel_weights update_all update_reel_weights weighted
spin_reel-share_example =
    spin_reel-share env 5 weighted 0 ((3, 1) ∷ []) (7, 2) ((4, 1) ∷ []) refl (omega arith)
      (omega arith) (omega arith)

ready : IsReady env weighted
unfolding weight_sum set_all_reel_weights update_all update_reel_weights weighted
ready = record {
  reels = omega arith;
  options = omega arith;
  rolls = omega arith;
  history = omega arith;
  are_set = reel_is_set;
}
  where
    reel_is_set : (k : ℕ) → k < 3 → HasWeights weighted k
    reel_is_set zero lt = record {
      weights = _;
      stored = refl;
      positive = omega arith;
      small = omega arith;
    }
    reel_is_set (suc zero) lt = record {
      weights = _;
      stored = refl;
      positive = omega arith;
      small = omega arith;
    }
    reel_is_set (suc (suc zero)) lt = record {
      weights = _;
      stored = refl;
      positive = omega arith;
      small = omega arith;
    }
    reel_is_set (suc (suc (suc n))) lt = absurd (omega (arith, lt))

no_rolls : length (weighted.roll_history 5) ≤ 10
unfolding set_all_reel_weights update_all update_reel_weights weighted
no_rolls = omega arith

roll-outcome_example :
    ((3 ≤ used_rolls env 5 weighted) × (roll env (signed 5) weighted ≡ err exceed_rolls_per_round))
    ⊎ ((used_rolls env 5 weighted < 3)
        × (result : List ℕ) × (spin env 5 3 0 weighted ≡ ok result)
        × (length result ≡ 3)
        × Symbols env 5 weighted 0 result
        × (t : Store ℕ) × (roll env (signed 5) weighted ≡ ok t)
        × Stores env 5 weighted result t)
roll-outcome_example = roll-outcome env 5 weighted ready no_rolls
