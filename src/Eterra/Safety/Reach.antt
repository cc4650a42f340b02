-- ===== src/Eterra/Safety/Reach.antt =====
-- Every history of calls to pallets/eterra/src/lib.rs, from the empty storage: a step is a call that
-- succeeds, under any block number, card storage and AI search.
use eterra_polkadot_sdk_solo.Prelude.{ℕ, ◌≡◌, ◌≢◌, subst, none, List, [], arith}
use eterra_polkadot_sdk_solo.Prelude.Results.{Result, ok, panic, ◌>>=◌, Origin}
use eterra_polkadot_sdk_solo.Prelude.Ensures.{Ensures, Ensures-bind}
use eterra_polkadot_sdk_solo.Eterra.Types.{AccountId, GameId, GameMode, Move, Error}
use eterra_polkadot_sdk_solo.Eterra.Recent.{no_games}
use eterra_polkadot_sdk_solo.Eterra.Store.{Store, Env}
use eterra_polkadot_sdk_solo.Eterra.Play.{play, play_from_hand, force_finish_turn}
use eterra_polkadot_sdk_solo.Eterra.Hands.{set_current_hand, set_preset_hand, submit_hand}
use eterra_polkadot_sdk_solo.Eterra.Create.{create_game, do_create_pvp_game}
use eterra_polkadot_sdk_solo.Eterra.Invariant.{Inv}
use eterra_polkadot_sdk_solo.Eterra.Safety.Moves.{
  play-Ensures, play_from_hand-Ensures, force_finish_turn-Ensures,
}
use eterra_polkadot_sdk_solo.Eterra.Safety.Calls.{create_game-Ensures, do_create_pvp_game-Ensures}
use eterra_polkadot_sdk_solo.Eterra.Safety.Hands.{set_current_hand-Ensures, submit_hand-Ensures}

-- The dispatchables, and the matchmaker's entry.
pub data Call : Type 0 where
  creates : List AccountId → GameMode → Call
  plays : GameId → Move → Call
  submits : GameId → List ℕ → Call
  plays_from_hand : GameId → ℕ → ℕ → ℕ → Call
  force_finishes : GameId → Call
  sets_current_hand sets_preset_hand : List ℕ → Call
  matches : AccountId → AccountId → Call

unfoldable pub dispatch : Env → Origin → Call → Store → Result Error Store
dispatch env origin (creates players mode) s = create_game env origin players mode s
dispatch env origin (plays id mv) s = play env origin id mv s
dispatch env origin (submits id ids) s = submit_hand env origin id ids s
dispatch env origin (plays_from_hand id i x y) s = play_from_hand env origin id i x y s
dispatch env origin (force_finishes id) s = force_finish_turn env origin id s
dispatch env origin (sets_current_hand ids) s = set_current_hand env origin ids s
dispatch env origin (sets_preset_hand ids) s = set_preset_hand env origin ids s
dispatch env origin (matches a b) s = do_create_pvp_game env a b s >>= λ r. ok r.1

abbrev pub genesis : Store
genesis = record {
  game_storage = λ _. none;
  game_modes = λ _. none;
  active_game_of = λ _. none;
  player_games = λ _. no_games;
  hands_of_game = λ _ _. none;
  current_hand_of = λ _. none;
  events = [];
}

-- The storages that calls lead to, with two players to a game.
pub data Reach : Store → Type 0 where
  start : Reach genesis
  call :
      {s t : Store}
      → Reach s
      → (env : Env) (origin : Origin) (c : Call) → env.num_players ≡ 2
      → dispatch env origin c s ≡ ok t
      → Reach t

pub genesis-Inv : Inv genesis
genesis-Inv = record {
  games = λ id g e. cc;
  fits = λ id g e. cc;
  active = λ a id e. cc;
  recents = λ a. omega arith;
}

pub dispatch-Ensures :
    (env : Env) (origin : Origin) (c : Call) (s : Store)
    → env.num_players ≡ 2
    → Inv s
    → Ensures Inv (dispatch env origin c s)
unfolding dispatch set_preset_hand
dispatch-Ensures env origin (creates players mode) s two v =
    create_game-Ensures env origin players mode s two v
dispatch-Ensures env origin (plays id mv) s two v = play-Ensures env origin id mv s v
dispatch-Ensures env origin (submits id ids) s two v = submit_hand-Ensures env origin id ids s v
dispatch-Ensures env origin (plays_from_hand id i x y) s two v =
    play_from_hand-Ensures env origin id i x y s v
dispatch-Ensures env origin (force_finishes id) s two v =
    force_finish_turn-Ensures env origin id s v
dispatch-Ensures env origin (sets_current_hand ids) s two v =
    set_current_hand-Ensures env origin ids s v
dispatch-Ensures env origin (sets_preset_hand ids) s two v =
    set_current_hand-Ensures env origin ids s v
dispatch-Ensures env origin (matches a b) s two v =
    Ensures-bind (λ r. Inv r.1) Inv (do_create_pvp_game env a b s) _
      (do_create_pvp_game-Ensures env a b s v) (λ r i. i)

-- With two players to a game, in every storage that calls can lead to from the empty one, each
-- stored game has two distinct players and a turn that names one of them, each account with an
-- active marker plays in a stored game that is being played, no score is above 255, and each list
-- of recent games has at most ten entries.
pub Reach-Inv : {s : Store} → Reach s → Inv s
Reach-Inv start = genesis-Inv
Reach-Inv (call {s = s} r env origin c two e) =
    subst (Ensures Inv) e (dispatch-Ensures env origin c s two (Reach-Inv r))

-- With two players to a game, no call panics from any storage that calls can lead to from the
-- empty one: neither the game's own code nor the search that the AI's turn runs, whatever its
-- settings and its nonce.
pub Reach-dispatch :
    {s : Store} (env : Env) (origin : Origin) (c : Call)
    → Reach s
    → env.num_players ≡ 2
    → dispatch env origin c s ≢ panic
Reach-dispatch {s} env origin c r two e =
    subst (Ensures Inv) e (dispatch-Ensures env origin c s two (Reach-Inv r))
