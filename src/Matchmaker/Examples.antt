-- ===== src/Matchmaker/Examples.antt =====
-- Concrete runs of the matchmaker, pallets/eterra-simple-matchmaker/src/lib.rs: a ring of two slots,
-- where everybody has a hand, and the games are listed by their players.
use eterra_polkadot_sdk_solo.Prelude.{
  ℕ, ◌+◌, ◌≡◌, ◌≤◌, refl, true, false, some, List, [], ◌∷◌, arith,
}
use eterra_polkadot_sdk_solo.Prelude.Results.{Result, ok, signed}
use eterra_polkadot_sdk_solo.Matchmaker.{
  Hooks, Config, Store, Error, deposit_event, do_process, enqueue, join_queue, pop_live, pop_loop,
  dequeue, take, start_match, first_pop, second_pop, process_loop, ring_size,
}
use eterra_polkadot_sdk_solo.Matchmaker.Pop.{Pops, pop_live-Pops}
use eterra_polkadot_sdk_solo.Matchmaker.Process.{Paired, do_process-total}
use eterra_polkadot_sdk_solo.Matchmaker.Lockout.{Stands}
use eterra_polkadot_sdk_solo.Matchmaker.History.{
  genesis, Reach, start, join, Reach-Stands, join_queue-full, join_queue-matches,
  join_queue-succeeds,
}

abbrev Games : Type 0
Games = List (ℕ × ℕ)

abbrev hooks : Hooks Games
hooks = record {
  has_current_hand = λ games who. true;
  create_from_matchmaking = λ a b games. (a, b) ∷ games;
}

abbrev config : Config
config = record { players_per_match = 2; queue_capacity = 2 }

abbrev empty_queue : Store Games
empty_queue = genesis []

abbrev stored : Result Error (Store Games) → Store Games
stored (ok s) = s
stored _ = empty_queue

abbrev one_waits : Store Games
unfolding genesis join_queue enqueue deposit_event do_process process_loop first_pop second_pop
    start_match pop_live pop_loop dequeue take ring_size
one_waits = stored (join_queue hooks config (signed 7) empty_queue)

first_joins : join_queue hooks config (signed 7) empty_queue ≡ ok one_waits
unfolding genesis join_queue enqueue deposit_event do_process process_loop first_pop second_pop
    start_match pop_live pop_loop dequeue take ring_size
first_joins = refl

abbrev both_matched : Store Games
unfolding genesis join_queue enqueue deposit_event do_process process_loop first_pop second_pop
    start_match pop_live pop_loop dequeue take ring_size one_waits
both_matched = stored (join_queue hooks config (signed 8) one_waits)

second_joins : join_queue hooks config (signed 8) one_waits ≡ ok both_matched
unfolding genesis join_queue enqueue deposit_event do_process process_loop first_pop second_pop
    start_match pop_live pop_loop dequeue take ring_size one_waits
second_joins = refl

one_waits-Reach : Reach hooks config 1 one_waits
one_waits-Reach = join (signed 7) (start []) first_joins

both_matched-Reach : Reach hooks config 2 both_matched
both_matched-Reach = join (signed 8) one_waits-Reach second_joins

the_game : both_matched.games ≡ (7, 8) ∷ []
unfolding genesis join_queue enqueue deposit_event do_process process_loop first_pop second_pop
    start_match pop_live pop_loop dequeue take ring_size one_waits both_matched
the_game = refl

Reach-Stands_example : Stands 2 2 both_matched
Reach-Stands_example = Reach-Stands hooks config (omega arith) both_matched-Reach

join_queue-full_example : ¬ (join_queue hooks config (signed 9) both_matched ≡ ok both_matched)
join_queue-full_example =
    join_queue-full hooks config (omega arith) both_matched-Reach (signed 9) both_matched

seven_waits : one_waits.in_queue 7 ≡ true
unfolding genesis join_queue enqueue deposit_event do_process process_loop first_pop second_pop
    start_match pop_live pop_loop dequeue take ring_size one_waits
seven_waits = refl

join_queue-matches_example : Paired 7 8 hooks one_waits both_matched
join_queue-matches_example =
    join_queue-matches hooks config (omega arith) one_waits-Reach 7 seven_waits 8 both_matched
      second_joins

eight_is_new : one_waits.in_queue 8 ≡ false
unfolding genesis join_queue enqueue deposit_event do_process process_loop first_pop second_pop
    start_match pop_live pop_loop dequeue take ring_size one_waits
eight_is_new = refl

join_queue-succeeds_example :
    (t : Store Games) × (join_queue hooks config (signed 8) one_waits ≡ ok t)
join_queue-succeeds_example =
    join_queue-succeeds hooks config (omega arith) (omega arith) one_waits-Reach (omega arith) 8
      eight_is_new refl

do_process-total_example : (t : Store Games) × (do_process hooks 2 one_waits ≡ ok t)
do_process-total_example = do_process-total hooks 2 one_waits

at_seven : one_waits.ring 0 ≡ some 7
unfolding genesis join_queue enqueue deposit_event do_process process_loop first_pop second_pop
    start_match pop_live pop_loop dequeue take ring_size one_waits
at_seven = refl

head_low : one_waits.head ≤ 2
unfolding genesis join_queue enqueue deposit_event do_process process_loop first_pop second_pop
    start_match pop_live pop_loop dequeue take ring_size one_waits
head_low = omega arith

pop_live-Pops_example : Pops (one_waits.head + 2) one_waits (pop_live 2 one_waits)
pop_live-Pops_example =
    pop_live-Pops 2 0 7 one_waits (omega arith) head_low (omega arith) at_seven seven_waits
