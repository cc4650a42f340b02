-- ===== src/Eterra/Safety/Calls.antt =====
-- `create_game` and `do_create_pvp_game`, of
-- pallets/eterra/src/lib.rs, from a state that meets the invariant.
use eterra_polkadot_sdk_solo.Prelude.{
  ◌<◌, ◌≡◌, refl, ◌==◌, leb, if◌then◌else◌, false, true, is_some, List, [], ◌∷◌, arith,
}
use eterra_polkadot_sdk_solo.Prelude.Results.{Origin}
use eterra_polkadot_sdk_solo.Prelude.Ensures.{Ensures, Ensures-bind, ensure-bind, signed-bind}
use eterra_polkadot_sdk_solo.Eterra.Types.{
  AccountId, GameId, Game, GameMode, pvp, pve, invalid_number_of_players, invalid_move,
  game_not_found, internal_error, preset_hand_missing,
}
use eterra_polkadot_sdk_solo.Eterra.Store.{Store, Env}
use eterra_polkadot_sdk_solo.Eterra.Create.{
  normalize, ensure_free, ensure_all_free, starting_turn, first_turn, new_game, create_with,
  create_game, do_create_pvp_game,
}
use eterra_polkadot_sdk_solo.Eterra.Invariant.{Inv, deposit_event-Inv}
use eterra_polkadot_sdk_solo.Eterra.Safety.Creation.{start_game-Inv}

ensure_all_free-Ensures :
    (mode : GameMode) (a b : AccountId) (s : Store)
    → Ensures (λ _. Unit {0}) (ensure_all_free mode a b s)
unfolding ensure_all_free
ensure_all_free-Ensures pvp a b s = ground arith
ensure_all_free-Ensures pve a b s = ground arith

first_turn-lt : (env : Env) (mode : GameMode) (a : AccountId) → first_turn env mode a < 2
unfolding first_turn
first_turn-lt env pvp a = ground arith
first_turn-lt env pve a = ground arith

create_with-Ensures :
    (env : Env) (mode : GameMode) (players : List AccountId) (s : Store)
    → env.num_players ≡ 2
    → Inv s
    → Ensures Inv (create_with env players mode s)
unfolding create_with
create_with-Ensures env mode [] s two v = ground arith
create_with-Ensures env mode (a ∷ []) s two v = ground arith
create_with-Ensures env mode (a ∷ b ∷ c ∷ r) s two v = ground arith
create_with-Ensures env mode (a ∷ b ∷ []) s two v =
    ensure-bind Inv (2 == env.num_players) invalid_number_of_players _ λ _.
      ensure-bind Inv (if a == b then false else true) invalid_move _ λ ne.
        Ensures-bind (λ _. Unit {0}) Inv (ensure_all_free mode a b s) _
          (ensure_all_free-Ensures mode a b s)
          λ _ _.
            ensure-bind Inv (if is_some (s.game_storage id) then false else true) game_not_found _
              λ unused. ensure-bind Inv (leb 2 env.num_players) internal_error _ λ _.
                deposit_event-Inv _ _ (
                  start_game-Inv env mode id a b game s (ground arith) refl (ground arith) refl
                    (first_turn-lt env mode a) (omega arith, omega arith) v)
  where
    id : GameId
    id = env.game_id_of a b env.block_number

    game : Game
    game = new_game env (a ∷ b ∷ []) (first_turn env mode a)

normalize-Ensures :
    (env : Env) (who : AccountId) (players : List AccountId) (mode : GameMode)
    → env.num_players ≡ 2
    → Ensures (λ _. Unit {0}) (normalize env who players mode)
unfolding normalize
normalize-Ensures env who [] pvp two = ground arith
normalize-Ensures env who (a ∷ []) pvp two = ground arith
normalize-Ensures env who (a ∷ b ∷ r) pvp two = ground arith
normalize-Ensures env who players pve two = ground arith

-- With two players to a game, `create_game` does not panic, and keeps the invariant.
pub create_game-Ensures :
    (env : Env) (origin : Origin) (players : List AccountId) (mode : GameMode) (s : Store)
    → env.num_players ≡ 2
    → Inv s
    → Ensures Inv (create_game env origin players mode s)
unfolding create_game
create_game-Ensures env origin players mode s two v = signed-bind Inv origin _ λ who _.
    ensure-bind Inv (is_some (s.current_hand_of who)) preset_hand_missing _ λ _.
      Ensures-bind (λ _. Unit {0}) Inv (normalize env who players mode) _
        (normalize-Ensures env who players mode two) λ ps _. create_with-Ensures env mode ps s two v

-- The game that the matchmaker asks for: no panic, and the invariant is kept.
pub do_create_pvp_game-Ensures :
    (env : Env) (a b : AccountId) (s : Store)
    → Inv s
    → Ensures (λ r. Inv r.1) (do_create_pvp_game env a b s)
unfolding do_create_pvp_game first_turn
do_create_pvp_game-Ensures env a b s v =
    ensure-bind P (if a == b then false else true) invalid_move _ λ ne.
      ensure-bind P (env.num_players == 2) invalid_number_of_players _ λ _.
        ensure-bind P (is_some (s.current_hand_of a)) preset_hand_missing _ λ _.
          ensure-bind P (is_some (s.current_hand_of b)) preset_hand_missing _ λ _.
            Ensures-bind (λ _. Unit {0}) P (ensure_free a s) _ (free a)
              λ _ _.
                Ensures-bind (λ _. Unit {0}) P (ensure_free b s) _ (free b)
                  λ _ _.
                    ensure-bind P (if is_some (s.game_storage id) then false else true)
                      game_not_found _
                      λ unused. ensure-bind P (leb 2 env.num_players) internal_error _ λ _.
                        deposit_event-Inv _ _ (
                          start_game-Inv env pvp id a b game s (ground arith) refl (ground arith)
                            refl (first_turn-lt env pvp a) (omega arith, omega arith) v)
  where
    P : GameId × Store → Type 0
    P r = Inv r.1

    id : GameId
    id = env.game_id_of a b env.block_number

    game : Game
    game = new_game env (a ∷ b ∷ []) (starting_turn env a)

    free : (c : AccountId) → Ensures (λ _. Unit {0}) (ensure_free c s)
    free c = ground arith
