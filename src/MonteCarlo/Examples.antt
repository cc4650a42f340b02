-- ===== src/MonteCarlo/Examples.antt =====
-- Concrete runs of the search, pallets/eterra-monte-carlo-ai/src/lib.rs, over the card game.
use eterra_polkadot_sdk_solo.Prelude.{
  ℕ, ◌*◌, ◌<◌, ◌≤◌, ◌≡◌, ◌↔◌, refl, false, some, none, [], ◌∷◌, if◌then◌else◌, ◌==◌, get_elem?,
  arith,
}
use eterra_polkadot_sdk_solo.Prelude.Int.{pos}
use eterra_polkadot_sdk_solo.Prelude.Panics.{Returns}
use eterra_polkadot_sdk_solo.Prelude.Results.{panic, signed}
use eterra_polkadot_sdk_solo.MonteCarlo.Call
use eterra_polkadot_sdk_solo.MonteCarlo.Call.{suggest_move}
use eterra_polkadot_sdk_solo.MonteCarlo.Unchecked.{IsTyped, HasFree, suggest_move-panics}
use eterra_polkadot_sdk_solo.Eterra.Types.{Game, HandEntry, pve}
use eterra_polkadot_sdk_solo.Eterra.Store.{Store, Env, is_pve}
use eterra_polkadot_sdk_solo.Eterra.Create.{new_game}
use eterra_polkadot_sdk_solo.Eterra.Ai.{map_hand, slot_of, state_of, ai_place, maybe_ai_take_turn}
use eterra_polkadot_sdk_solo.Eterra.Examples
use eterra_polkadot_sdk_solo.Eterra.Safety.Reach.{genesis}
use eterra_polkadot_sdk_solo.AiAdapter.Types.{State, Action}
use eterra_polkadot_sdk_solo.AiAdapter.Entries.{Legal}
use eterra_polkadot_sdk_solo.AiAdapter.Examples.{first_entries, second_entries}
use eterra_polkadot_sdk_solo.MonteCarlo.{
  Config, max, scaled_iterations, sims_per_action, simulate, suggest,
}
use eterra_polkadot_sdk_solo.MonteCarlo.Laws.{Within}
use eterra_polkadot_sdk_solo.MonteCarlo.Budget.{sims_per_action-budget, simulate-fits}
use eterra_polkadot_sdk_solo.MonteCarlo.Search.{Suggests, suggest-Suggests}
use eterra_polkadot_sdk_solo.MonteCarlo.Adapter.{card_game}
use eterra_polkadot_sdk_solo.MonteCarlo.CardGame.{Valid, card_game-Lawful}
use eterra_polkadot_sdk_solo.MonteCarlo.AiTurn.{AiToMove, with_search, maybe_ai_take_turn-plays}

abbrev config : Config
config = record { base_iterations = 2; max_playout_depth = 3; randomness_seed = 42 }

-- Account 2 is the AI.
abbrev env : Env
env = record Examples.env { ai_account = 2 }

abbrev opened : Game
opened = new_game env (1 ∷ 2 ∷ []) 1

abbrev stored : Store
stored = record genesis {
  game_modes = λ id. some pve;
  hands_of_game = λ id a. some (if a == 1 then first_entries else second_entries);
}

abbrev seen : State
seen = state_of opened first_entries second_entries

seen-Valid : Valid seen
unfolding state_of new_game map_hand
seen-Valid = record {
  turn = omega arith;
  two = refl;
  five = (refl, (refl, tt));
  low = omega arith;
  high = omega arith;
}

suggest-Suggests_example :
    Returns
      (Suggests card_game config card_game-Lawful seen 60 0)
      (suggest card_game config seen 60 0)
unfolding state_of new_game map_hand
suggest-Suggests_example = suggest-Suggests card_game config card_game-Lawful seen 60 0 seen-Valid

to_move : AiToMove env 7 opened stored 1 2 first_entries second_entries
unfolding new_game is_pve
to_move = record {
  pve = refl;
  players = refl;
  first_hand = refl;
  second_hand = refl;
  turn = omega arith;
  mover = refl;
  live = omega arith;
  low = omega arith;
  high = omega arith;
}

abbrev corner : Action
corner = record { hand_index = 0; x = 0; y = 0 }

can_move : Legal seen corner
unfolding state_of new_game map_hand slot_of
can_move = record {
  hand = map_hand 5 second_entries;
  slot = record { north = 1; east = 1; south = 9; west = 1; used = false };
  column = omega arith;
  row = omega arith;
  free = refl;
  held = refl;
  entry = refl;
  unused = refl;
}

maybe_ai_take_turn-plays_example :
    (a : Action) × (h : HandEntry) × (get_elem? second_entries a.hand_index ≡ some h)
    × (h.used ≡ false)
    × (a.x < 4)
    × (a.y < 4)
    × (opened.board a.x a.y ≡ none)
    × ((n : ℕ) × (suggest card_game config seen 60 0 ≡ some (some a, n)))
    × (maybe_ai_take_turn (with_search config 0 env) 7 opened stored
        ≡ ai_place (with_search config 0 env) 7 opened second_entries h a stored)
unfolding new_game
maybe_ai_take_turn-plays_example = maybe_ai_take_turn-plays config 0 to_move corner can_move

simulate-fits_example :
    Returns
      (λ r. Within 9223372036854775807 r.0)
      (simulate card_game config seen corner 1 0 (sims_per_action config 60 16) 0 (pos 0) 5)
simulate-fits_example =
    simulate-fits card_game config card_game-Lawful seen corner 1 0 60 16 5 seen-Valid can_move
      (omega arith)

sims_per_action-budget_example :
    (1 ≤ sims_per_action config 60 16)
    × (sims_per_action config 60 16 * 16 ≤ max (scaled_iterations config 60) 16)
sims_per_action-budget_example = sims_per_action-budget config 60 16 (omega arith)

-- The same position with a turn that names no player.
abbrev stray : State
stray = record seen { player_turn = 2 }

abbrev untouched : Call.Store Action
untouched = record { nonce = 0; events = [] }

stray-IsTyped : IsTyped stray
unfolding state_of new_game map_hand
stray-IsTyped = record {
  two = refl;
  five = (refl, (refl, tt));
  low = omega arith;
  high = omega arith;
}

suggest_move-panics_example :
    (suggest_move card_game config (λ s. 0) (signed 1) stray 60 untouched ≡ panic)
    ↔ ((stray.round < stray.max_rounds) × (2 ≤ stray.player_turn) × HasFree stray)
suggest_move-panics_example = suggest_move-panics config (λ s. 0) 1 stray 60 untouched stray-IsTyped

it_panics : suggest_move card_game config (λ s. 0) (signed 1) stray 60 untouched ≡ panic
unfolding state_of new_game
it_panics =
    suggest_move-panics_example.1 (omega arith, omega arith, (0, 0, omega arith, omega arith, refl))
