-- ===== src/Eterra/Types.antt =====
-- The data of the game pallet: pallets/eterra/src/types (cards, board, game, move) and the types
-- that pallets/eterra/src/lib.rs declares (modes, hands, events, errors).
-- Account ids, card ids, hashes and block numbers are numbers. A board is a function of the two
-- indices, which the code keeps below 4.
use eterra_polkadot_sdk_solo.Prelude.{
  ℕ, ◌+◌, ◌%◌, ◌==◌, if◌then◌else◌, Bool, Option, none, some, List, u8_mod,
}

abbrev pub AccountId : Type 0
AccountId = ℕ

abbrev pub GameId : Type 0
GameId = ℕ

abbrev pub BlockNumber : Type 0
BlockNumber = ℕ

-- `Possession`, which lib.rs imports as `Player`.
pub data Player : Type 0 where
  player_one player_two : Player

pub record Card : Type 0 where
  pub top : ℕ
  pub right : ℕ
  pub bottom : ℕ
  pub left : ℕ
  pub possession : Option Player

unfoldable pub new_card : ℕ → ℕ → ℕ → ℕ → Card
new_card t r b l = record { top = t; right = r; bottom = b; left = l; possession = none }

unfoldable pub with_possession : Card → Player → Card
with_possession c p = record c { possession = some p }

abbrev pub Board : Type 0
Board = ℕ → ℕ → Option Card

pub data GameState : Type 0 where
  matchmaking playing : GameState
  finished : Option ℕ → GameState

pub record Game : Type 0 where
  pub state : GameState
  pub last_played_block : BlockNumber
  pub players : List AccountId
  pub player_turn : ℕ
  pub round : ℕ
  pub max_rounds : ℕ
  pub board : Board
  pub scores : ℕ × ℕ

pub record Move : Type 0 where
  pub place_index_x : ℕ
  pub place_index_y : ℕ
  pub place_card : Card

-- The turn passes to the other player; the round, a `u8`, grows when the turn wraps to 0.
unfoldable pub advance : Game → Game
advance g =
    let turn = (g.player_turn + 1) % u8_mod % 2 in
    record g { player_turn = turn; round = if turn == 0 then (g.round + 1) % u8_mod else g.round }

unfoldable pub next_turn_in : GameState → Game → Game
unfolding advance
next_turn_in (finished w) g = g
next_turn_in _ g = advance g

unfoldable pub next_turn : Game → Game
unfolding next_turn_in
next_turn g = next_turn_in g.state g

pub data GameMode : Type 0 where
  pvp pve : GameMode

pub record HandEntry : Type 0 where
  pub card_id : ℕ
  pub north : ℕ
  pub east : ℕ
  pub south : ℕ
  pub west : ℕ
  pub used : Bool

pub data Event : Type 0 where
  game_created : GameId → Event
  move_played : GameId → AccountId → ℕ → ℕ → Event
  game_finished : GameId → Option AccountId → Event
  new_turn turn_force_finished hand_submitted : GameId → AccountId → Event

pub data Error : Type 0 where
  game_not_found invalid_move not_your_turn cell_occupied invalid_number_of_players : Error
  internal_error blocks_to_play_limit_not_passed current_player_cannot_force_finish_turn : Error
  player_not_in_game creator_must_be_in_game hand_size_invalid duplicate_card_in_hand : Error
  hand_already_submitted hand_not_submitted hand_index_out_of_range card_already_used : Error
  card_does_not_exist card_not_owned player_already_in_game preset_hand_missing : Error
