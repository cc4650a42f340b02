-- ===== src/Eterra/Turns/Examples.antt =====
-- A concrete game of pallets/eterra/src/lib.rs that the second player begins.
use eterra_polkadot_sdk_solo.Prelude.{◌+◌, ◌≡◌, ◌<◌, refl, none, [], ◌∷◌, arith}
use eterra_polkadot_sdk_solo.Eterra.Types.{Game, Move, next_turn, next_turn_in, advance}
use eterra_polkadot_sdk_solo.Eterra.Store.{Env}
use eterra_polkadot_sdk_solo.Eterra.Capture.{
  place_card_on_board, apply_capture_logic, capture_loop, capture_step, neighbor_cell,
}
use eterra_polkadot_sdk_solo.Eterra.Ai.{resolve_move}
use eterra_polkadot_sdk_solo.Eterra.Create.{new_game, starting_turn}
use eterra_polkadot_sdk_solo.Eterra.Course.{Course, opening, second_moves, skips}
use eterra_polkadot_sdk_solo.Eterra.Turns.{opening_turn, skipped, Course-turns}
use eterra_polkadot_sdk_solo.Eterra.Examples.{env}

-- Two rounds, and an odd byte of the hash of the first player.
abbrev odd_env : Env
odd_env = record env { max_rounds = 2; blake_first_byte = λ a. 7 }

abbrev card : Move
card = record {
  place_index_x = 1;
  place_index_y = 1;
  place_card = record { top = 5; right = 5; bottom = 5; left = 5; possession = none };
}

abbrev second_began : Game
second_began = new_game odd_env (1 ∷ 2 ∷ []) (starting_turn odd_env 1)

abbrev placed : Game
placed = resolve_move odd_env card 1 second_began

abbrev first_skipped : Game
first_skipped = record (next_turn placed) { last_played_block = 20 }

abbrev second_skipped : Game
second_skipped = record (next_turn first_skipped) { last_played_block = 30 }

began : Course 0 0 second_began
unfolding starting_turn
began = opening odd_env (1 ∷ 2 ∷ []) (starting_turn odd_env 1) (omega arith) (omega arith)

whole_game : Course 0 1 second_skipped
unfolding new_game starting_turn resolve_move place_card_on_board apply_capture_logic capture_loop
    capture_step neighbor_cell next_turn next_turn_in advance
whole_game =
    skips
      (skips (second_moves began odd_env card (omega arith) refl (omega arith) (omega arith) refl)
        20 (omega arith))
      30 (omega arith)

Course-turns_example :
    (0 + skipped 0 whole_game + opening_turn whole_game ≡ second_skipped.max_rounds)
    × (1 + skipped 1 whole_game ≡ second_skipped.max_rounds)
    × (opening_turn whole_game < 2)
unfolding new_game starting_turn resolve_move place_card_on_board apply_capture_logic capture_loop
    capture_step neighbor_cell next_turn next_turn_in advance
Course-turns_example = Course-turns whole_game (omega arith) (omega arith)

-- The first player has had one turn, and the second two.
turns_had : (skipped 0 whole_game ≡ 1) × (1 + skipped 1 whole_game ≡ 2)
unfolding whole_game began skipped new_game starting_turn resolve_move place_card_on_board
    apply_capture_logic capture_loop capture_step neighbor_cell next_turn next_turn_in advance
turns_had = (refl, refl)
