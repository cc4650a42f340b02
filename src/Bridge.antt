-- ===== src/Bridge.antt =====
-- The matchmaker on the game pallet, as runtime/src/lib.rs (`HandProviderAdapter`) and the end of
-- pallets/eterra/src/lib.rs (`GameCreator`) connect them.
pub mod Examples
use eterra_polkadot_sdk_solo.Prelude.{
  ℕ, ◌+◌, ◌<◌, ◌≡◌, ◌≢◌, refl, sym, ap, ◌∙◌, subst, ◌==◌, leb, if◌then◌else◌, Bool, true, false,
  Option, none, some, is_some, List, [], ◌∷◌, arith, ◌⊎◌, inl, inr, u32_mod, ==_ne,
}
use eterra_polkadot_sdk_solo.Prelude.Results.{
  Result, ok, err, bad_origin, passed_on, panic, signed, ensure, ◌>>=◌, ◌>>◌,
}
use eterra_polkadot_sdk_solo.Prelude.Ensures.{is_ok-eq, ok_injective}
use eterra_polkadot_sdk_solo.Eterra.Types.{AccountId, GameId, Error}
use eterra_polkadot_sdk_solo.Eterra.Store.{Env}
use eterra_polkadot_sdk_solo.Eterra.Create.{ensure_free, do_create_pvp_game}
use eterra_polkadot_sdk_solo.Eterra.Created.{Created, do_create_pvp_game-Created}
use eterra_polkadot_sdk_solo.Matchmaker.{Hooks, Config, join_queue}
use eterra_polkadot_sdk_solo.Matchmaker.Lockout.{join_queue-Joined}
use eterra_polkadot_sdk_solo.Matchmaker.History.{Reach, join_queue-matches}
use eterra_polkadot_sdk_solo.Eterra.Store
use eterra_polkadot_sdk_solo.Matchmaker

abbrev Games : Type 0
Games = Store.Store

-- A creation does not panic, on any storage.
pub do_create_pvp_game-calm :
    (env : Env) (a b : AccountId) (s : Games) → do_create_pvp_game env a b s ≢ panic
unfolding do_create_pvp_game ensure_free
do_create_pvp_game-calm env a b s e = ground (arith, e)

-- What the matchmaker makes of the result: an error is dropped, and has changed nothing.
unfoldable pub created_or : (s : Games) (r : Result Error (GameId × Games)) → r ≢ panic → Games
created_or s (ok r) calm = r.1
created_or s (err e) calm = s
created_or s bad_origin calm = s
created_or s passed_on calm = s
created_or s panic calm = absurd (calm refl)

created_or-ok :
    (s : Games) (r : Result Error (GameId × Games)) (calm : r ≢ panic) (x : GameId × Games)
    → r ≡ ok x
    → created_or s r calm ≡ x.1
unfolding created_or
created_or-ok s (ok r) calm x e = ap (λ z. z.1) (ok_injective e)
created_or-ok s (err y) calm x e = cc
created_or-ok s bad_origin calm x e = cc
created_or-ok s passed_on calm x e = cc
created_or-ok s panic calm x e = absurd (calm refl)

unfoldable pub game_hooks : Env → Hooks Games
unfolding created_or
game_hooks env = record {
  has_current_hand = λ s who. is_some (s.current_hand_of who);
  create_from_matchmaking =
      λ a b s. created_or s (do_create_pvp_game env a b s) (do_create_pvp_game-calm env a b s);
}

-- The two accounts can start a game: they have hands, neither is in a game, and the id is unused.
pub record CanMeet (env : Env) (a b : AccountId) (s : Games) : Type 0 where
  pub two : env.num_players ≡ 2
  pub first_hand : is_some (s.current_hand_of a) ≡ true
  pub second_hand : is_some (s.current_hand_of b) ≡ true
  pub first_free : s.active_game_of a ≡ none
  pub second_free : s.active_game_of b ≡ none
  pub unused : s.game_storage (env.game_id_of a b env.block_number) ≡ none

creation_succeeds :
    (env : Env) (a b : AccountId) (s : Games)
    → a ≢ b
    → CanMeet env a b s
    → (r : GameId × Games) × (do_create_pvp_game env a b s ≡ ok r)
unfolding do_create_pvp_game ensure_free
creation_succeeds env a b s ne c = is_ok-eq (do_create_pvp_game env a b s) (
    rw (==_ne a b ne, c.two, c.first_hand, c.second_hand, c.first_free, c.second_free, c.unused)
      refl)

hooks-Created :
    (env : Env) (a b : AccountId) (s : Games)
    → a ≢ b
    → CanMeet env a b s
    → (id : GameId) × Created env a b id s ((game_hooks env).create_from_matchmaking a b s)
unfolding game_hooks
hooks-Created env a b s ne c =
    let (r, e) = creation_succeeds env a b s ne c in
    (
      r.0,
      subst (Created env a b r.0 s)
          (sym (
            created_or-ok s (do_create_pvp_game env a b s) (do_create_pvp_game-calm env a b s) r e))
          (do_create_pvp_game-Created env a b r.0 s r.1 e),
    )

-- With a ring of less than half the range of a `u32`, after any history, when an account joins
-- while another waits, and the two have hands, are in no game and would get an unused id: a join
-- that succeeds has created a new game of the two in the game pallet, in the one order or the
-- other.
pub join_queue-Created :
    (env : Env) (config : Config)
    → config.queue_capacity + config.queue_capacity < u32_mod
    → {n : ℕ} {s : Matchmaker.Store Games} → Reach (game_hooks env) config n s
    → (w who : AccountId) → s.in_queue w ≡ true
    → CanMeet env w who s.games
    → CanMeet env who w s.games
    → (t : Matchmaker.Store Games) → join_queue (game_hooks env) config (signed who) s ≡ ok t
    → ((id : GameId) × Created env w who id s.games t.games)
      ⊎ ((id : GameId) × Created env who w id s.games t.games)
join_queue-Created env config small {n} {s} r w who waits one other t e =
    let (x, o, j) = join_queue-Joined (game_hooks env) config (signed who) s t e in
    let fresh : s.in_queue who ≡ false =
      subst (λ y. s.in_queue y ≡ false) (signed_is who x o) j.fresh in
    let ne : w ≢ who = λ same. differ (sym waits ∙ ap s.in_queue same ∙ fresh) in
    let p = join_queue-matches (game_hooks env) config small r w waits who t e in
    elim p.games [
      | inl first ↦
          let (id, c) = hooks-Created env w who s.games ne one in
          inl (id, subst (Created env w who id s.games) (sym first) c)
      | inr second ↦
          let (id, c) = hooks-Created env who w s.games (λ q. ne (sym q)) other in
          inr (id, subst (Created env who w id s.games) (sym second) c)
    ]
  where
    signed_is : (a b : AccountId) → signed a ≡ signed b → b ≡ a
    signed_is a b q = cc

    differ : true ≢ false
    differ q = cc
