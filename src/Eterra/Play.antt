-- ===== src/Eterra/Play.antt =====
-- The calls of pallets/eterra/src/lib.rs that move a game on: `play`, `play_from_hand` and
-- `force_finish_turn`.
use eterra_polkadot_sdk_solo.Prelude.{
  ℕ, ◌==◌, leb, ltb, if◌then◌else◌, true, false, none, some, length, get_elem?, contains,
  saturating_add, u32_max,
}
use eterra_polkadot_sdk_solo.Prelude.Results.{
  Result, ok, Origin, ensure_signed, ensure, ok_or, or_panic, ◌>>=◌, ◌>>◌,
}
use eterra_polkadot_sdk_solo.Eterra.Types.{
  GameId, Move, next_turn, new_turn, move_played, turn_force_finished, Error, game_not_found,
  player_not_in_game, current_player_cannot_force_finish_turn, blocks_to_play_limit_not_passed,
  hand_not_submitted, hand_index_out_of_range, card_already_used,
}
use eterra_polkadot_sdk_solo.Eterra.Store.{
  Store, Env, deposit_event, put_game, validate_player_turn, validate_move, validate_cell,
  get_current_player_index, is_game_won, end_game,
}
use eterra_polkadot_sdk_solo.Eterra.Ai.{move_of, resolve_move, use_slot, put_hand, let_ai_play}

unfoldable pub play : Env → Origin → GameId → Move → Store → Result Error Store
unfolding validate_move deposit_event put_game
play env origin id mv s = do
  who ← ensure_signed origin
  game ← ok_or (s.game_storage id) game_not_found
  validate_player_turn game who
  validate_move game mv
  ix ← get_current_player_index game who
  let game' = resolve_move env mv ix game
  next_player ← or_panic (get_elem? game'.players game'.player_turn)
  let s1 = put_game id game' (deposit_event (new_turn id next_player) s)
  won ← is_game_won id game' s1
  elim won [
    | some winner ↦ end_game id winner s1
    | none ↦
        let_ai_play env id (deposit_event (move_played id who mv.place_index_x mv.place_index_y) s1)
  ]

unfoldable pub play_from_hand : Env → Origin → GameId → ℕ → ℕ → ℕ → Store → Result Error Store
unfolding validate_cell deposit_event put_game move_of use_slot put_hand
play_from_hand env origin id hand_index x y s = do
  who ← ensure_signed origin
  game ← ok_or (s.game_storage id) game_not_found
  validate_player_turn game who
  validate_cell game x y
  hand ← ok_or (s.hands_of_game id who) hand_not_submitted
  ensure (ltb hand_index (length hand)) hand_index_out_of_range
  h ← or_panic (get_elem? hand hand_index)
  ensure (if h.used then false else true) card_already_used
  ix ← get_current_player_index game who
  let game' = resolve_move env (move_of h x y) ix game
  let s1 = put_hand id who (use_slot hand hand_index h) s
  next_player ← or_panic (get_elem? game'.players game'.player_turn)
  let s2 = put_game id game' (deposit_event (new_turn id next_player) s1)
  let s3 = deposit_event (move_played id who x y) s2
  won ← is_game_won id game' s3
  elim won [ some winner ↦ end_game id winner s3 | none ↦ let_ai_play env id s3 ]

unfoldable pub force_finish_turn : Env → Origin → GameId → Store → Result Error Store
unfolding deposit_event put_game
force_finish_turn env origin id s = do
  who ← ensure_signed origin
  game ← ok_or (s.game_storage id) game_not_found
  ensure (contains game.players who) player_not_in_game
  current_player ← or_panic (get_elem? game.players game.player_turn)
  ensure (if current_player == who then false else true) current_player_cannot_force_finish_turn
  let deadline = saturating_add u32_max game.last_played_block env.blocks_to_play_limit
  ensure (leb deadline env.block_number) blocks_to_play_limit_not_passed
  let game' = record (next_turn game) { last_played_block = env.block_number }
  won ← is_game_won id game' s
  elim won [
    | some winner ↦ end_game id winner s
    | none ↦ do
      let s1 = put_game id game' s
      next_player ← or_panic (get_elem? game'.players game'.player_turn)
      let s2 = deposit_event (turn_force_finished id current_player) s1
      ok (deposit_event (new_turn id next_player) s2)
  ]
