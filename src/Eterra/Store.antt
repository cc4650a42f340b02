-- ===== src/Eterra/Store.antt =====
-- The storage of the game pallet (pallets/eterra/src/lib.rs), what its calls read besides, and the
-- small helpers that several calls share.
use eterra_polkadot_sdk_solo.Prelude.{
  ℕ, ◌==◌, leb, ltb, if◌then◌else◌, Bool, true, false, Option, none, some, is_some, List, ◌∷◌,
  get_elem?, update,
}
use eterra_polkadot_sdk_solo.Prelude.Results.{Result, ok, ◌>>=◌, ◌>>◌, ensure, or_panic}
use eterra_polkadot_sdk_solo.SimpleTcg.Types.{CardInfo}
use eterra_polkadot_sdk_solo.MonteCarlo.{Config}
use eterra_polkadot_sdk_solo.Eterra.Recent.{BoundedGames, recent}
use eterra_polkadot_sdk_solo.Eterra.Types.{
  AccountId, GameId, BlockNumber, Game, finished, GameMode, pve, HandEntry, Move, Event,
  game_finished, Error, not_your_turn, invalid_move, cell_occupied,
}

-- One field for each storage item, and the events, newest first.
pub record Store : Type 0 where
  pub game_storage : GameId → Option Game
  pub game_modes : GameId → Option GameMode
  pub active_game_of : AccountId → Option GameId
  pub player_games : AccountId → BoundedGames
  pub hands_of_game : GameId → AccountId → Option (List HandEntry)
  pub current_hand_of : AccountId → Option (List ℕ)
  pub events : List Event

-- The output of the runtime's hash function, an array of bytes, which is not empty.
pub record Digest : Type 0 where
  pub first : ℕ
  pub rest : List ℕ

abbrev pub as_ref : Digest → List ℕ
as_ref d = d.first ∷ d.rest

-- The configured constants, the block number, the card pallet's storage, the settings of the AI
-- pallet and the nonce that its search is at, and the hash functions of the runtime: `hash_of` on
-- (player, player, block), `hash_of` on a game id and on (game id, account), and the first byte of
-- `blake2_128` on an account.
pub record Env : Type 0 where
  pub num_players : ℕ
  pub max_rounds : ℕ
  pub blocks_to_play_limit : ℕ
  pub hand_size : ℕ
  pub ai_account : AccountId
  pub ai_difficulty : ℕ
  pub block_number : BlockNumber
  pub cards : ℕ → Option CardInfo
  pub search : Config
  pub nonce : ℕ
  pub game_id_of : AccountId → AccountId → BlockNumber → GameId
  pub game_bytes : GameId → Digest
  pub game_account_bytes : GameId → AccountId → Digest
  pub blake_first_byte : AccountId → ℕ

-- `HandLimit`
abbrev pub hand_limit : ℕ
hand_limit = 5

unfoldable pub deposit_event : Event → Store → Store
deposit_event e s = record s { events = e ∷ s.events }

unfoldable pub put_game : GameId → Game → Store → Store
put_game id g s = record s { game_storage = update s.game_storage id (some g) }

unfoldable pub is_pve : Option GameMode → Bool
is_pve (some pve) = true
is_pve _ = false

unfoldable pub push_recent : GameId → AccountId → Store → Store
unfolding recent
push_recent id acct s = record s {
  player_games = update s.player_games acct (recent id (s.player_games acct));
}

unfoldable pub validate_player_turn : Game → AccountId → Result Error (Unit {0})
validate_player_turn g who = do
  current_turn ← or_panic (get_elem? g.players g.player_turn)
  ensure (current_turn == who) not_your_turn

unfoldable pub validate_cell : Game → ℕ → ℕ → Result Error (Unit {0})
validate_cell g x y = do
  ensure (if ltb x 4 then ltb y 4 else false) invalid_move
  ensure (if is_some (g.board x y) then false else true) cell_occupied

unfoldable pub validate_move : Game → Move → Result Error (Unit {0})
unfolding validate_cell
validate_move g mv = validate_cell g mv.place_index_x mv.place_index_y

unfoldable pub get_current_player_index : Game → AccountId → Result Error ℕ
get_current_player_index g who = do
  first ← or_panic (get_elem? g.players 0)
  ok (if who == first then 0 else 1)

-- `none` while the game goes on; then the winner, or `some none` for a draw.
unfoldable pub is_game_won : GameId → Game → Store → Result Error (Option (Option AccountId))
is_game_won id g s =
    if is_some (s.game_storage id)
    then (if leb g.max_rounds g.round
        then (if ltb g.scores.1 g.scores.0
            then (do winner ← or_panic (get_elem? g.players 0); ok (some (some winner)))
            else (if ltb g.scores.0 g.scores.1
                then (do winner ← or_panic (get_elem? g.players 1); ok (some (some winner)))
                else ok (some none)))
        else ok none)
    else ok none

-- `ActiveGameOf::remove` for a player that is there.
unfoldable pub clear_active : Option AccountId → Store → Store
clear_active none s = s
clear_active (some a) s = record s { active_game_of = update s.active_game_of a none }

-- The index of the winner among the players.
unfoldable pub winner_index : Game → Option AccountId → Result Error (Option ℕ)
winner_index g none = ok none
winner_index g (some acc) = do
  first ← or_panic (get_elem? g.players 0)
  if acc == first then ok (some 0) else (do
    second ← or_panic (get_elem? g.players 1)
    ok (if acc == second then some 1 else none))

unfoldable pub end_stored_game : GameId → Option AccountId → Game → Store → Result Error Store
unfolding clear_active deposit_event put_game
end_stored_game id winner g s = do
  ix ← winner_index g winner
  let s1 = deposit_event (game_finished id winner) s
  let s2 = clear_active (get_elem? g.players 1) (clear_active (get_elem? g.players 0) s1)
  ok (put_game id (record g { state = finished ix }) s2)

unfoldable pub end_game : GameId → Option AccountId → Store → Result Error Store
unfolding end_stored_game deposit_event
end_game id winner s = elim (s.game_storage id) [
  | some g ↦ end_stored_game id winner g s
  | none ↦ ok (deposit_event (game_finished id winner) s)
]
