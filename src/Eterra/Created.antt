-- ===== src/Eterra/Created.antt =====
-- What a creation that succeeds leaves in the storage: `do_create_pvp_game` of
-- pallets/eterra/src/lib.rs.
use eterra_polkadot_sdk_solo.Prelude.{
  ◌≡◌, ◌≢◌, sym, ap, ◌==◌, leb, if◌then◌else◌, true, false, none, some, is_some, [], ◌∷◌, arith,
}
use eterra_polkadot_sdk_solo.Prelude.Results.{ok}
use eterra_polkadot_sdk_solo.Prelude.Ensures.{ensure-eq-ok, ok_injective}
use eterra_polkadot_sdk_solo.Eterra.Types.{
  AccountId, GameId, pvp, invalid_move, invalid_number_of_players, preset_hand_missing,
  player_already_in_game, game_not_found, internal_error,
}
use eterra_polkadot_sdk_solo.Eterra.Store.{Store, Env, deposit_event, put_game, push_recent}
use eterra_polkadot_sdk_solo.Eterra.Create.{
  ensure_free, set_active, mark_busy, set_mode, starting_turn, new_game, initial_ai_hand,
  start_game, do_create_pvp_game,
}

-- The new game of `a` and `b`, as `t` has it.
pub record Created (env : Env) (a b : AccountId) (id : GameId) (s t : Store) : Type 0 where
  pub distinct : a ≢ b
  pub unused : s.game_storage id ≡ none
  pub first_free : s.active_game_of a ≡ none
  pub second_free : s.active_game_of b ≡ none
  pub game : t.game_storage id ≡ some (new_game env (a ∷ b ∷ []) (starting_turn env a))
  pub mode : t.game_modes id ≡ some pvp
  pub first_active : t.active_game_of a ≡ some id
  pub second_active : t.active_game_of b ≡ some id
  pub others : (i : GameId) → i ≢ id → t.game_storage i ≡ s.game_storage i
  pub bystanders : (c : AccountId) → c ≢ a → c ≢ b → t.active_game_of c ≡ s.active_game_of c

free_of :
    (a : AccountId) (s : Store)
    → (if is_some (s.active_game_of a) then false else true) ≡ true
    → s.active_game_of a ≡ none
free_of a s e = ground (arith, e)

-- A creation for the matchmaker that succeeds: the two accounts differ and were in no game, and the
-- returned id was unused; under it there is now a new PvP game of the two, both are marked as
-- active in it, and every other game and every other account's marker is as before.
pub do_create_pvp_game-Created :
    (env : Env) (a b : AccountId) (id : GameId) (s t : Store)
    → do_create_pvp_game env a b s ≡ ok (id, t)
    → Created env a b id s t
unfolding do_create_pvp_game ensure_free start_game mark_busy set_active set_mode push_recent
    put_game initial_ai_hand deposit_event
do_create_pvp_game-Created env a b id s t e =
    let (ne, e1) = ensure-eq-ok (if a == b then false else true) invalid_move _ e in
    let (_, e2) = ensure-eq-ok (env.num_players == 2) invalid_number_of_players _ e1 in
    let (_, e3) = ensure-eq-ok (is_some (s.current_hand_of a)) preset_hand_missing _ e2 in
    let (_, e4) = ensure-eq-ok (is_some (s.current_hand_of b)) preset_hand_missing _ e3 in
    let (free_a, e5) =
      ensure-eq-ok (if is_some (s.active_game_of a) then false else true) player_already_in_game _
        e4 in
    let (free_b, e6) =
      ensure-eq-ok (if is_some (s.active_game_of b) then false else true) player_already_in_game _
        e5 in
    let new_id = env.game_id_of a b env.block_number in
    let (unused, e7) =
      ensure-eq-ok (if is_some (s.game_storage new_id) then false else true) game_not_found _ e6 in
    let (_, e8) = ensure-eq-ok (leb 2 env.num_players) internal_error _ e7 in
    let r = ok_injective e8 in
    rw (sym (ap (λ p. p.1) r), sym (ap (λ p. p.0) r))
      record {
        distinct = λ same. ground (arith, same, ne);
        unused = ground (arith, unused);
        first_free = free_of a s free_a;
        second_free = free_of b s free_b;
        game = ground arith;
        mode = ground arith;
        first_active = ground arith;
        second_active = ground arith;
        others = λ i other. ground arith;
        bystanders = λ c p q. ground arith;
      }
