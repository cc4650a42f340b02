-- ===== src/AiAdapter/Examples.antt =====
-- Concrete positions of crates/eterra-card-ai-adapter/src/lib.rs.
use eterra_polkadot_sdk_solo.Prelude.{
  ◌≡◌, refl, true, false, some, List, [], ◌∷◌, if◌then◌else◌, ◌==◌, arith,
}
use eterra_polkadot_sdk_solo.Prelude.Panics.{Returns}
use eterra_polkadot_sdk_solo.Eterra.Types.{HandEntry, next_turn, next_turn_in, advance}
use eterra_polkadot_sdk_solo.Eterra.Capture.{
  place_card_on_board, apply_capture_logic, capture_loop, capture_step, neighbor_cell,
}
use eterra_polkadot_sdk_solo.Eterra.Create.{new_game}
use eterra_polkadot_sdk_solo.Eterra.Ai.{map_hand, slot_of, state_of, resolve_move}
use eterra_polkadot_sdk_solo.Eterra.Examples.{env, moved_once, moved_once-Course}
use eterra_polkadot_sdk_solo.AiAdapter.Types.{Slot, State, Action}
use eterra_polkadot_sdk_solo.AiAdapter.Adapter.{apply_pure, list_actions_pure}
use eterra_polkadot_sdk_solo.AiAdapter.Simulation.{Shows, state_of-Shows, move_for, used_in}
use eterra_polkadot_sdk_solo.AiAdapter.Refinement.{apply_pure-refines}
use eterra_polkadot_sdk_solo.AiAdapter.Listing.{ListsLegal, list_actions_pure-lists}

-- One card for each player, of which the second one's is strong at the bottom.
abbrev pub first_entries : List HandEntry
first_entries = record { card_id = 10; north = 5; east = 5; south = 5; west = 5; used = true } ∷ []

abbrev pub second_entries : List HandEntry
second_entries =
    record { card_id = 20; north = 1; east = 1; south = 9; west = 1; used = false } ∷ []

abbrev strong : Slot
strong = record { north = 1; east = 1; south = 9; west = 1; used = false }

abbrev above_it : Action
above_it = record { hand_index = 0; x = 1; y = 0 }

abbrev seen : State
unfolding state_of
seen = state_of moved_once first_entries second_entries

apply_pure-refines_example :
    (t : State) × (apply_pure seen above_it ≡ some t)
    × Shows t
        (resolve_move env (move_for strong above_it) 1 moved_once)
        (if seen.player_turn == 0
          then used_in (map_hand 5 first_entries) above_it strong
          else map_hand 5 first_entries)
        (if seen.player_turn == 0
          then map_hand 5 second_entries
          else used_in (map_hand 5 second_entries) above_it strong)
unfolding new_game resolve_move place_card_on_board apply_capture_logic capture_loop capture_step
    neighbor_cell next_turn next_turn_in advance map_hand slot_of seen state_of
apply_pure-refines_example =
    apply_pure-refines env moved_once-Course (omega arith) seen (map_hand 5 first_entries)
      (map_hand 5 second_entries) (state_of-Shows moved_once first_entries second_entries) above_it
      strong refl (omega arith) (omega arith)

list_actions_pure-lists_example : Returns (ListsLegal seen 128) (list_actions_pure 128 seen)
unfolding new_game resolve_move place_card_on_board apply_capture_logic capture_loop capture_step
    neighbor_cell next_turn next_turn_in advance map_hand slot_of seen state_of
list_actions_pure-lists_example =
    list_actions_pure-lists seen 128 (map_hand 5 second_entries) (omega arith) refl refl
