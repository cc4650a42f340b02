-- ===== src/Bridge/Examples.antt =====
-- A concrete run through the matchmaker into the game pallet.
use eterra_polkadot_sdk_solo.Prelude.{◌≡◌, refl, true, some, [], arith, ◌⊎◌}
use eterra_polkadot_sdk_solo.Prelude.Results.{Result, ok, signed}
use eterra_polkadot_sdk_solo.Eterra.Types.{GameId}
use eterra_polkadot_sdk_solo.Eterra.Store
use eterra_polkadot_sdk_solo.Eterra.Create
use eterra_polkadot_sdk_solo.Eterra.Recent
use eterra_polkadot_sdk_solo.Eterra.Created.{Created}
use eterra_polkadot_sdk_solo.Eterra.Examples.{env}
use eterra_polkadot_sdk_solo.Eterra.Safety.Reach
use eterra_polkadot_sdk_solo.Matchmaker
use eterra_polkadot_sdk_solo.Matchmaker.{Config, Error, join_queue}
use eterra_polkadot_sdk_solo.Matchmaker.History
use eterra_polkadot_sdk_solo.Bridge.{Games, game_hooks, created_or, CanMeet, join_queue-Created}

abbrev config : Config
config = record { players_per_match = 2; queue_capacity = 4 }

-- Everybody has a hand, and no game has been created.
abbrev all_ready : Games
all_ready = record Reach.genesis { current_hand_of = λ a. some [] }

abbrev outcome : Result Error (Matchmaker.Store Games) → Matchmaker.Store Games
outcome (ok s) = s
outcome _ = History.genesis all_ready

abbrev one_waits : Matchmaker.Store Games
unfolding join_queue Matchmaker.enqueue Matchmaker.deposit_event Matchmaker.do_process
    Matchmaker.process_loop Matchmaker.first_pop Matchmaker.second_pop Matchmaker.start_match
    Matchmaker.pop_live Matchmaker.pop_loop Matchmaker.dequeue Matchmaker.take Matchmaker.ring_size
    History.genesis game_hooks
one_waits = outcome (join_queue (game_hooks env) config (signed 1) (History.genesis all_ready))

first_joins :
    join_queue (game_hooks env) config (signed 1) (History.genesis all_ready) ≡ ok one_waits
unfolding join_queue Matchmaker.enqueue Matchmaker.deposit_event Matchmaker.do_process
    Matchmaker.process_loop Matchmaker.first_pop Matchmaker.second_pop Matchmaker.start_match
    Matchmaker.pop_live Matchmaker.pop_loop Matchmaker.dequeue Matchmaker.take Matchmaker.ring_size
    History.genesis game_hooks
first_joins = refl

abbrev matched : Matchmaker.Store Games
unfolding join_queue Matchmaker.enqueue Matchmaker.deposit_event Matchmaker.do_process
    Matchmaker.process_loop Matchmaker.first_pop Matchmaker.second_pop Matchmaker.start_match
    Matchmaker.pop_live Matchmaker.pop_loop Matchmaker.dequeue Matchmaker.take Matchmaker.ring_size
    History.genesis game_hooks one_waits created_or Create.do_create_pvp_game Create.ensure_free
    Create.starting_turn Create.start_game Create.mark_busy Create.set_active Create.set_mode
    Create.initial_ai_hand Create.new_game Store.push_recent Recent.recent Recent.moved_front
    Store.put_game Store.deposit_event
matched = outcome (join_queue (game_hooks env) config (signed 2) one_waits)

second_joins : join_queue (game_hooks env) config (signed 2) one_waits ≡ ok matched
unfolding join_queue Matchmaker.enqueue Matchmaker.deposit_event Matchmaker.do_process
    Matchmaker.process_loop Matchmaker.first_pop Matchmaker.second_pop Matchmaker.start_match
    Matchmaker.pop_live Matchmaker.pop_loop Matchmaker.dequeue Matchmaker.take Matchmaker.ring_size
    History.genesis game_hooks one_waits created_or Create.do_create_pvp_game Create.ensure_free
    Create.starting_turn Create.start_game Create.mark_busy Create.set_active Create.set_mode
    Create.initial_ai_hand Create.new_game Store.push_recent Recent.recent Recent.moved_front
    Store.put_game Store.deposit_event
second_joins = refl

one_waits-Reach : History.Reach (game_hooks env) config 1 one_waits
one_waits-Reach = History.Reach.join (signed 1) (History.Reach.start all_ready) first_joins

first_waits : one_waits.in_queue 1 ≡ true
unfolding join_queue Matchmaker.enqueue Matchmaker.deposit_event Matchmaker.do_process
    Matchmaker.process_loop Matchmaker.first_pop Matchmaker.second_pop Matchmaker.start_match
    Matchmaker.pop_live Matchmaker.pop_loop Matchmaker.dequeue Matchmaker.take Matchmaker.ring_size
    History.genesis game_hooks one_waits
first_waits = refl

forwards : CanMeet env 1 2 one_waits.games
unfolding join_queue Matchmaker.enqueue Matchmaker.deposit_event Matchmaker.do_process
    Matchmaker.process_loop Matchmaker.first_pop Matchmaker.second_pop Matchmaker.start_match
    Matchmaker.pop_live Matchmaker.pop_loop Matchmaker.dequeue Matchmaker.take Matchmaker.ring_size
    History.genesis game_hooks one_waits
forwards = record {
  two = refl;
  first_hand = refl;
  second_hand = refl;
  first_free = refl;
  second_free = refl;
  unused = refl;
}

backwards : CanMeet env 2 1 one_waits.games
unfolding join_queue Matchmaker.enqueue Matchmaker.deposit_event Matchmaker.do_process
    Matchmaker.process_loop Matchmaker.first_pop Matchmaker.second_pop Matchmaker.start_match
    Matchmaker.pop_live Matchmaker.pop_loop Matchmaker.dequeue Matchmaker.take Matchmaker.ring_size
    History.genesis game_hooks one_waits
backwards = record {
  two = refl;
  first_hand = refl;
  second_hand = refl;
  first_free = refl;
  second_free = refl;
  unused = refl;
}

join_queue-Created_example :
    ((id : GameId) × Created env 1 2 id one_waits.games matched.games)
    ⊎ ((id : GameId) × Created env 2 1 id one_waits.games matched.games)
join_queue-Created_example =
    join_queue-Created env config (omega arith) one_waits-Reach 1 2 first_waits forwards backwards
      matched second_joins
