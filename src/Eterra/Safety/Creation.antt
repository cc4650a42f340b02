-- ===== src/Eterra/Safety/Creation.antt =====
-- `create_game`, `do_create_pvp_game`, `submit_hand` and `set_current_hand`, of
-- pallets/eterra/src/lib.rs.
use mathlib.Core.Option.{some-injective}
use eterra_polkadot_sdk_solo.Prelude.{
  ℕ, ◌<◌, ◌≡◌, ◌≢◌, refl, sym, ◌∙◌, ap, subst, true, none, some, arith, inl, inr, [], ◌∷◌, contains,
  ◌⊎◌,
}
use eterra_polkadot_sdk_solo.Prelude.Maps.{update-cases}
use eterra_polkadot_sdk_solo.Eterra.Types.{GameId, Game, GameMode, pvp, pve, playing}
use eterra_polkadot_sdk_solo.Eterra.Store.{Store, Env, push_recent, put_game}
use eterra_polkadot_sdk_solo.Eterra.Hands.{add_ai_hand}
use eterra_polkadot_sdk_solo.Eterra.Create.{
  set_active, mark_busy, set_mode, initial_ai_hand, start_game,
}
use eterra_polkadot_sdk_solo.Eterra.Capture.Fits.{ScoresFit}
use eterra_polkadot_sdk_solo.Eterra.Invariant.{IsValid, PlaysIn, Inv}

-- The parts of the storage that the invariant reads.
record Same (s t : Store) : Type 0 where
  games : t.game_storage ≡ s.game_storage
  active : t.active_game_of ≡ s.active_game_of
  recents : t.player_games ≡ s.player_games

Same-Inv : (s t : Store) → Same s t → Inv s → Inv t
Same-Inv s t k v = record {
  games = λ id g e. v.games id g (sym (ap (λ f. f id) k.games) ∙ e);
  fits = λ id g e. v.fits id g (sym (ap (λ f. f id) k.games) ∙ e);
  active = λ a id e.
      subst (PlaysIn a) (sym (ap (λ f. f id) k.games))
        (v.active a id (sym (ap (λ f. f a) k.active) ∙ e));
  recents = λ a. rw k.recents (v.recents a);
}

initial_ai_hand-Same :
    (env : Env) (mode : GameMode) (id : GameId) (g : Game) (s : Store)
    → Same (put_game id g s) (put_game id g (initial_ai_hand env mode id s))
unfolding initial_ai_hand add_ai_hand put_game
initial_ai_hand-Same env pvp id g s = record { games = refl; active = refl; recents = refl }
initial_ai_hand-Same env pve id g s = record {
  games = ground arith;
  active = ground arith;
  recents = ground arith;
}

-- A marker after `mark_busy` is one of the new ones or an old one.
busy_marker :
    (mode : GameMode) (id a b c i : ℕ) (s : Store)
    → (mark_busy mode id a b s).active_game_of c ≡ some i
    → ((i ≡ id) × ((c ≡ a) ⊎ (c ≡ b))) ⊎ (s.active_game_of c ≡ some i)
unfolding mark_busy set_active
busy_marker pvp id a b c i s e = ground arith
busy_marker pve id a b c i s e = ground arith

busy-games :
    (mode : GameMode) (id a b : ℕ) (s : Store)
    → (push_recent id b
        (push_recent id a (mark_busy mode id a b (set_mode id mode s)))).game_storage
      ≡ s.game_storage
unfolding push_recent mark_busy set_mode set_active
busy-games pvp id a b s = refl
busy-games pve id a b s = refl

busy-active :
    (mode : GameMode) (id a b : ℕ) (s : Store)
    → (push_recent id b
        (push_recent id a (mark_busy mode id a b (set_mode id mode s)))).active_game_of
      ≡ (mark_busy mode id a b s).active_game_of
unfolding push_recent mark_busy set_mode set_active
busy-active pvp id a b s = refl
busy-active pve id a b s = refl

busy-recents :
    (mode : GameMode) (id a b : ℕ) (s : Store)
    → (mark_busy mode id a b (set_mode id mode s)).player_games ≡ s.player_games
unfolding mark_busy set_mode set_active
busy-recents pvp id a b s = refl
busy-recents pve id a b s = refl

seat : (a b c : ℕ) → ((c ≡ a) ⊎ (c ≡ b)) → contains (a ∷ b ∷ []) c ≡ true
seat a b c h = ground arith

-- A new game between `a` and `b`, under an id that is not in use.
pub start_game-Inv :
    (env : Env) (mode : GameMode) (id a b : ℕ) (g : Game) (s : Store)
    → s.game_storage id ≡ none
    → g.players ≡ a ∷ b ∷ []
    → a ≢ b
    → g.state ≡ playing
    → g.player_turn < 2
    → ScoresFit g
    → Inv s
    → Inv (start_game env mode id a b g s)
unfolding start_game put_game
start_game-Inv env mode id a b g s free seats ne on turn fit v =
    Same-Inv _ _ (initial_ai_hand-Same env mode id g busy) stored
  where
    busy : Store
    busy = push_recent id b (push_recent id a (mark_busy mode id a b (set_mode id mode s)))

    valid : IsValid g
    valid = record { first = a; second = b; seats = seats; distinct = ne; turn = turn }

    marker :
        (c i : ℕ)
        → busy.active_game_of c ≡ some i
        → ((i ≡ id) × ((c ≡ a) ⊎ (c ≡ b))) ⊎ (s.active_game_of c ≡ some i)
    marker c i e =
        busy_marker mode id a b c i s (sym (ap (λ f. f c) (busy-active mode id a b s)) ∙ e)

    seated :
        (c i : ℕ)
        → i ≡ id
        → ((i ≡ id) × ((c ≡ a) ⊎ (c ≡ b))) ⊎ (s.active_game_of c ≡ some i)
        → contains g.players c ≡ true
    seated c i same (inl (_, who)) = rw seats (seat a b c who)
    seated c i same (inr old) =
        absurd (subst (PlaysIn c) (ap s.game_storage same ∙ free) (v.active c i old))

    older :
        (c i : ℕ)
        → i ≢ id
        → ((i ≡ id) × ((c ≡ a) ⊎ (c ≡ b))) ⊎ (s.active_game_of c ≡ some i)
        → PlaysIn c (s.game_storage i)
    older c i other (inl (same, _)) = absurd (other same)
    older c i other (inr old) = v.active c i old

    stored : Inv (put_game id g busy)
    stored = record {
      games = λ i h e.
          update-cases (λ o. o ≡ some h → IsValid h) busy.game_storage id (some g) i
            (λ _ p. subst IsValid (some-injective _ _ p) valid)
            (λ _ p. v.games i h (sym (ap (λ f. f i) (busy-games mode id a b s)) ∙ p)) e;
      fits = λ i h e.
          update-cases (λ o. o ≡ some h → ScoresFit h) busy.game_storage id (some g) i
            (λ _ p. subst ScoresFit (some-injective _ _ p) fit)
            (λ _ p. v.fits i h (sym (ap (λ f. f i) (busy-games mode id a b s)) ∙ p)) e;
      active = λ c i e.
          update-cases (PlaysIn c) busy.game_storage id (some g) i
            (λ same. (on, seated c i same (marker c i e)))
            (λ other.
              subst (PlaysIn c) (sym (ap (λ f. f i) (busy-games mode id a b s)))
                (older c i other (marker c i e)));
      recents = λ c. (busy.player_games c).bound;
    }
