-- ===== src/Eterra/Create.antt =====
-- The creation of games in pallets/eterra/src/lib.rs: `create_game`, and `do_create_pvp_game`, which
-- the matchmaker calls through `GameCreator`.
use eterra_polkadot_sdk_solo.Prelude.{
  ℕ, ◌%◌, ◌==◌, leb, if◌then◌else◌, true, false, none, some, is_some, List, [], ◌∷◌, length,
  get_elem?, contains, update,
}
use eterra_polkadot_sdk_solo.Prelude.Results.{
  Result, ok, err, Origin, ensure_signed, ensure, or_panic, ◌>>=◌, ◌>>◌,
}
use eterra_polkadot_sdk_solo.Eterra.Types.{
  AccountId, GameId, Game, playing, GameMode, pvp, pve, game_created, Error, game_not_found,
  invalid_move, invalid_number_of_players, internal_error, creator_must_be_in_game,
  player_already_in_game, preset_hand_missing,
}
use eterra_polkadot_sdk_solo.Eterra.Store.{Store, Env, deposit_event, put_game, push_recent}
use eterra_polkadot_sdk_solo.Eterra.Hands.{add_ai_hand, generate_ai_hand_default}

-- `players.swap(0, 1)`
unfoldable pub swap_first_two : List AccountId → List AccountId
swap_first_two (a ∷ b ∷ rest) = b ∷ a ∷ rest
swap_first_two players = players

unfoldable pub normalize :
    Env → AccountId → List AccountId → GameMode → Result Error (List AccountId)
unfolding swap_first_two
normalize env who players pvp = do
  ensure (contains players who) creator_must_be_in_game
  ensure (length players == env.num_players) invalid_number_of_players
  p0 ← or_panic (get_elem? players 0)
  p1 ← or_panic (get_elem? players 1)
  ensure (if p0 == p1 then false else true) invalid_move
  if p0 == who
      then ok players
      else (if p1 == who then ok (swap_first_two players) else err creator_must_be_in_game)
normalize env who players pve = do
  ensure (if who == env.ai_account then false else true) invalid_move
  ok (who ∷ env.ai_account ∷ [])

unfoldable pub ensure_free : AccountId → Store → Result Error (Unit {0})
ensure_free a s =
    ensure (if is_some (s.active_game_of a) then false else true) player_already_in_game

unfoldable pub ensure_all_free : GameMode → AccountId → AccountId → Store → Result Error (Unit {0})
unfolding ensure_free
ensure_all_free pvp a b s = ensure_free a s >> ensure_free b s
ensure_all_free pve a b s = ensure_free a s

unfoldable pub set_active : GameId → AccountId → Store → Store
set_active id a s = record s { active_game_of = update s.active_game_of a (some id) }

unfoldable pub mark_busy : GameMode → GameId → AccountId → AccountId → Store → Store
unfolding set_active
mark_busy pvp id a b s = set_active id b (set_active id a s)
mark_busy pve id a b s = set_active id a s

unfoldable pub set_mode : GameId → GameMode → Store → Store
set_mode id mode s = record s { game_modes = update s.game_modes id (some mode) }

-- The PvP start: the parity of a hash byte of the first player.
unfoldable pub starting_turn : Env → AccountId → ℕ
starting_turn env a = if env.blake_first_byte a % 2 == 0 then 0 else 1

unfoldable pub new_game : Env → List AccountId → ℕ → Game
new_game env players turn = record {
  state = playing;
  last_played_block = env.block_number;
  players = players;
  player_turn = turn;
  round = 0;
  max_rounds = env.max_rounds;
  board = λ x y. none;
  scores = (5, 5);
}

-- The AI's hand at creation, in a PvE game.
unfoldable pub initial_ai_hand : Env → GameMode → GameId → Store → Store
unfolding add_ai_hand
initial_ai_hand env pvp id s = s
initial_ai_hand env pve id s = add_ai_hand env id (generate_ai_hand_default env id) s

unfoldable pub first_turn : Env → GameMode → AccountId → ℕ
unfolding starting_turn
first_turn env pvp a = starting_turn env a
first_turn env pve a = 0

-- The storage of a new game, up to its event.
unfoldable pub start_game : Env → GameMode → GameId → AccountId → AccountId → Game → Store → Store
unfolding mark_busy set_mode push_recent put_game initial_ai_hand
start_game env mode id creator opponent game s =
    let s1 = mark_busy mode id creator opponent (set_mode id mode s) in
    let s2 = push_recent id opponent (push_recent id creator s1) in
    put_game id game (initial_ai_hand env mode id s2)

-- `create_game` from the point where `players` is normalized.
unfoldable pub create_with : Env → List AccountId → GameMode → Store → Result Error Store
unfolding deposit_event new_game start_game first_turn
create_with env players mode s = do
  ensure (length players == env.num_players) invalid_number_of_players
  creator ← or_panic (get_elem? players 0)
  opponent ← or_panic (get_elem? players 1)
  ensure (if creator == opponent then false else true) invalid_move
  ensure_all_free mode creator opponent s
  let id = env.game_id_of creator opponent env.block_number
  ensure (if is_some (s.game_storage id) then false else true) game_not_found
  ensure (leb (length players) env.num_players) internal_error
  let game = new_game env players (first_turn env mode creator)
  ok (deposit_event (game_created id) (start_game env mode id creator opponent game s))

unfoldable pub create_game : Env → Origin → List AccountId → GameMode → Store → Result Error Store
unfolding create_with
create_game env origin requested mode s = do
  who ← ensure_signed origin
  ensure (is_some (s.current_hand_of who)) preset_hand_missing
  players ← normalize env who requested mode
  create_with env players mode s

unfoldable pub do_create_pvp_game :
    Env → AccountId → AccountId → Store → Result Error (GameId × Store)
unfolding deposit_event new_game start_game starting_turn ensure_free
do_create_pvp_game env a b s = do
  ensure (if a == b then false else true) invalid_move
  ensure (env.num_players == 2) invalid_number_of_players
  ensure (is_some (s.current_hand_of a)) preset_hand_missing
  ensure (is_some (s.current_hand_of b)) preset_hand_missing
  ensure_free a s
  ensure_free b s
  let id = env.game_id_of a b env.block_number
  ensure (if is_some (s.game_storage id) then false else true) game_not_found
  let players = a ∷ b ∷ []
  ensure (leb (length players) env.num_players) internal_error
  let game = new_game env players (starting_turn env a)
  ok (id, deposit_event (game_created id) (start_game env pvp id a b game s))
