-- ===== src/Eterra/Examples.antt =====
-- Concrete runs of the game pallet, pallets/eterra/src/lib.rs.
use eterra_polkadot_sdk_solo.Prelude.{
  ℕ, ◌+◌, ◌*◌, ◌/◌, ◌≡◌, ◌≢◌, ◌≤◌, refl, true, none, some, [], ◌∷◌, arith,
}
use eterra_polkadot_sdk_solo.Prelude.Results.{Result, ok, panic, signed}
use eterra_polkadot_sdk_solo.SimpleTcg.Types.{CardInfo, base, common}
use eterra_polkadot_sdk_solo.Eterra.Types.{
  new_card, Game, Move, finished, with_possession, next_turn, next_turn_in, advance, Error,
  player_one, player_two,
}
use eterra_polkadot_sdk_solo.Eterra.Store.{Store, Env}
use eterra_polkadot_sdk_solo.Eterra.Store.{end_game, put_game, push_recent, deposit_event}
use eterra_polkadot_sdk_solo.Eterra.Recent.{recent, moved_front}
use eterra_polkadot_sdk_solo.Eterra.Hands.{
  set_current_hand, ensure_distinct, ensure_new, ensure_owned, owned_card,
}
use eterra_polkadot_sdk_solo.Eterra.Create.{
  do_create_pvp_game, ensure_free, starting_turn, start_game, mark_busy, set_active, set_mode,
  initial_ai_hand, new_game,
}
use eterra_polkadot_sdk_solo.Eterra.Capture.{
  place_card_on_board, apply_capture_logic, capture_loop, capture_step, neighbor_cell, beats,
  is_opponent_owned, opp_rank, flip_card,
}
use eterra_polkadot_sdk_solo.Eterra.Capture.Owners.{owned, weight, holds}
use eterra_polkadot_sdk_solo.Eterra.Capture.Rule.{captured, apply_capture_logic-board}
use eterra_polkadot_sdk_solo.Eterra.Ai.{resolve_move}
use eterra_polkadot_sdk_solo.Eterra.Created.{Created, do_create_pvp_game-Created}
use eterra_polkadot_sdk_solo.Eterra.Play.{play}
use eterra_polkadot_sdk_solo.Eterra.Course.{
  Course, opening, first_moves, second_moves, Course-scores,
}
use eterra_polkadot_sdk_solo.Eterra.Finished.{leader, HasEnded, end_game-HasEnded, play-finished}
use eterra_polkadot_sdk_solo.Eterra.Safety.Reach.{
  Call, sets_current_hand, matches, dispatch, genesis, Reach, start, call, Reach-Inv,
  Reach-dispatch,
}
use eterra_polkadot_sdk_solo.Eterra.Invariant.{Inv, IsValid, Keeps-IsValid, resolve_move-Keeps}
use eterra_polkadot_sdk_solo.Prelude.Sums.{sum_below}

-- Account `a` owns the cards 10 a to 10 a + 9.
abbrev card_of : ℕ → CardInfo
card_of id = record {
  owner = id / 10;
  finalized = true;
  slot_values = none;
  name = [];
  north = 1;
  east = 2;
  south = 3;
  west = 4;
  card_id = id;
  minted_at = 0;
  price = 0;
  edition = base;
  rarity = common;
}

abbrev pub env : Env
env = record {
  num_players = 2;
  max_rounds = 5;
  blocks_to_play_limit = 6;
  hand_size = 5;
  ai_account = 9;
  ai_difficulty = 60;
  block_number = 7;
  cards = λ id. some (card_of id);
  search = record { base_iterations = 2; max_playout_depth = 3; randomness_seed = 42 };
  nonce = 0;
  game_id_of = λ a b n. 100 * a + 10 * b + n;
  game_bytes = λ id. record { first = 1; rest = 2 ∷ [] };
  game_account_bytes = λ id a. record { first = 1; rest = 2 ∷ [] };
  blake_first_byte = λ a. 0;
}

-- The storage that a call leads to.
abbrev stored : Result Error Store → Store
stored (ok s) = s
stored _ = genesis

abbrev first_hand : Call
first_hand = sets_current_hand (10 ∷ 11 ∷ 12 ∷ 13 ∷ 14 ∷ [])

abbrev second_hand : Call
second_hand = sets_current_hand (20 ∷ 21 ∷ 22 ∷ 23 ∷ 24 ∷ [])

abbrev after_first : Store
unfolding dispatch set_current_hand ensure_distinct ensure_new ensure_owned owned_card
after_first = stored (dispatch env (signed 1) first_hand genesis)

first_sets : dispatch env (signed 1) first_hand genesis ≡ ok after_first
unfolding dispatch set_current_hand ensure_distinct ensure_new ensure_owned owned_card
first_sets = refl

abbrev after_second : Store
unfolding dispatch set_current_hand ensure_distinct ensure_new ensure_owned owned_card
after_second = stored (dispatch env (signed 2) second_hand after_first)

second_sets : dispatch env (signed 2) second_hand after_first ≡ ok after_second
unfolding dispatch set_current_hand ensure_distinct ensure_new ensure_owned owned_card
second_sets = refl

abbrev after_match : Store
unfolding dispatch do_create_pvp_game ensure_free starting_turn start_game mark_busy set_active
    set_mode push_recent recent moved_front put_game initial_ai_hand deposit_event new_game
after_match = stored (dispatch env (signed 1) (matches 1 2) after_second)

match_starts : dispatch env (signed 1) (matches 1 2) after_second ≡ ok after_match
unfolding dispatch do_create_pvp_game ensure_free starting_turn start_game mark_busy set_active
    set_mode push_recent recent moved_front put_game initial_ai_hand deposit_event new_game
    after_second
match_starts = refl

after_match-Reach : Reach after_match
after_match-Reach =
    call
      (call (call start env (signed 1) first_hand refl first_sets) env (signed 2) second_hand refl
        second_sets)
      env (signed 1) (matches 1 2) refl match_starts

Reach-Inv_example : Inv after_match
Reach-Inv_example = Reach-Inv after_match-Reach

Reach-dispatch_example : dispatch env (signed 2) (matches 2 1) after_match ≢ panic
Reach-dispatch_example = Reach-dispatch env (signed 2) (matches 2 1) after_match-Reach refl

-- A game with two moves: the second captures the first card from above.
abbrev pub low_card : Move
low_card = record {
  place_index_x = 1;
  place_index_y = 1;
  place_card = record { top = 5; right = 5; bottom = 5; left = 5; possession = none };
}

abbrev high_card : Move
unfolding new_card
high_card = record { place_index_x = 1; place_index_y = 0; place_card = new_card 1 1 9 1 }

abbrev pub opened : Game
opened = new_game env (1 ∷ 2 ∷ []) 0

abbrev pub moved_once : Game
moved_once = resolve_move env low_card 0 opened

abbrev moved_twice : Game
moved_twice = resolve_move env high_card 1 moved_once

pub moved_once-Course : Course 1 0 moved_once
unfolding new_game
moved_once-Course =
    first_moves (opening env (1 ∷ 2 ∷ []) 0 (omega arith) (omega arith)) env low_card (omega arith)
      refl (omega arith) (omega arith) refl

moved_twice-Course : Course 1 1 moved_twice
unfolding new_game high_card resolve_move place_card_on_board apply_capture_logic capture_loop
    capture_step neighbor_cell next_turn next_turn_in advance
moved_twice-Course =
    second_moves moved_once-Course env high_card (omega arith) refl (omega arith) (omega arith) refl

Course-scores_example :
    (moved_twice.scores.0 + 1 ≡ 5 + owned player_one moved_twice.board)
    × (moved_twice.scores.1 + 1 ≡ 5 + owned player_two moved_twice.board)
    × (moved_twice.scores.0 + moved_twice.scores.1 ≡ 10)
    × (owned player_one moved_twice.board + owned player_two moved_twice.board ≡ 1 + 1)
    × (1 ≤ 5)
    × (1 ≤ 5)
Course-scores_example = Course-scores moved_twice-Course

captured_low : (moved_twice.scores ≡ (4, 6)) × (owned player_two moved_twice.board ≡ 2)
unfolding new_game high_card resolve_move place_card_on_board apply_capture_logic capture_loop
    capture_step neighbor_cell next_turn next_turn_in advance with_possession beats
    is_opponent_owned opp_rank flip_card owned weight holds sum_below new_card
captured_low = (refl, refl)

apply_capture_logic-board_example :
    (apply_capture_logic moved_once high_card 1).board 1 1
    ≡ captured high_card 1 moved_once.board 1 1
apply_capture_logic-board_example =
    apply_capture_logic-board moved_once high_card 1 1 1 (omega arith) (omega arith)

opened-IsValid : IsValid opened
unfolding new_game
opened-IsValid = record {
  first = 1;
  second = 2;
  seats = refl;
  distinct = λ e. omega (arith, e);
  turn = omega arith;
}

is_stored : after_match.game_storage 127 ≡ some opened
unfolding after_match after_second after_first new_game
is_stored = refl

end_game-HasEnded_example :
    (t : Store) × (end_game 127
        (leader opened opened-IsValid.first opened-IsValid.second)
        after_match
      ≡ ok t)
    × HasEnded 127 opened opened-IsValid t
end_game-HasEnded_example = end_game-HasEnded 127 opened after_match opened-IsValid is_stored

-- A game that is over, with one card on its board.
abbrev over : Game
over = record moved_once { state = finished (some 0); round = 5 }

over-IsValid : IsValid over
unfolding new_game resolve_move place_card_on_board apply_capture_logic capture_loop capture_step
    neighbor_cell next_turn next_turn_in advance
over-IsValid = record {
  first = 1;
  second = 2;
  seats = refl;
  distinct = λ e. omega (arith, e);
  turn = omega arith;
}

abbrev after_game : Store
after_game = put_game 127 over after_match

over_stored : after_game.game_storage 127 ≡ some over
unfolding put_game
over_stored = refl

play-finished_example :
    let k = resolve_move-Keeps env high_card over.player_turn over in
    (t : Store) × (play env (signed 2) 127 high_card after_game ≡ ok t)
    × HasEnded 127
        (resolve_move env high_card over.player_turn over)
        (Keeps-IsValid over _ k over-IsValid)
        t
unfolding new_game high_card resolve_move place_card_on_board apply_capture_logic capture_loop
    capture_step neighbor_cell next_turn next_turn_in advance
play-finished_example =
    play-finished env 2 127 high_card after_game over (some 0) over-IsValid over_stored refl
      (omega arith) refl (omega arith) (omega arith) refl

match_returns : do_create_pvp_game env 1 2 after_second ≡ ok (127, after_match)
unfolding do_create_pvp_game ensure_free starting_turn start_game mark_busy set_active set_mode
    push_recent recent moved_front put_game initial_ai_hand deposit_event new_game dispatch
    after_second after_match
match_returns = refl

do_create_pvp_game-Created_example : Created env 1 2 127 after_second after_match
do_create_pvp_game-Created_example =
    do_create_pvp_game-Created env 1 2 127 after_second after_match match_returns
