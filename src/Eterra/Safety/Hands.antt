-- ===== src/Eterra/Safety/Hands.antt =====
-- `set_current_hand` and `submit_hand`, of
-- pallets/eterra/src/lib.rs, from a state that meets the invariant.
use eterra_polkadot_sdk_solo.Prelude.{
  ℕ, ◌==◌, leb, if◌then◌else◌, false, true, is_some, List, [], ◌∷◌, ◌++◌, arith, length, contains,
  Option-cases, inl, inr, Bool-cases,
}
use eterra_polkadot_sdk_solo.Prelude.Results.{ok, Origin}
use eterra_polkadot_sdk_solo.Prelude.Ensures.{
  Ensures, Ensures-bind, ensure-bind, if-Ensures, ok_or-bind, signed-bind,
}
use eterra_polkadot_sdk_solo.Eterra.Types.{
  AccountId, GameId, HandEntry, game_not_found, preset_hand_missing, player_not_in_game,
  hand_already_submitted, hand_size_invalid, hand_submitted,
}
use eterra_polkadot_sdk_solo.Eterra.Store.{Store, Env, hand_limit, is_pve, deposit_event}
use mathlib.Core.Option.{Option, none, some}
use eterra_polkadot_sdk_solo.Eterra.Ai.{put_hand, let_ai_play}
use eterra_polkadot_sdk_solo.Eterra.Hands.{
  ensure_new, ensure_distinct, owned_card, ensure_owned, set_current_hand, build_hand, add_ai_hand,
  generate_ai_hand_for_game, submit_hand, entry_of,
}
use eterra_polkadot_sdk_solo.Eterra.Invariant.{Inv, put_hand-Inv, deposit_event-Inv}
use eterra_polkadot_sdk_solo.Eterra.Safety.Moves.{let_ai_play-Ensures}

ensure_new-Ensures : (id : ℕ) (ids : List ℕ) → Ensures (λ _. Unit {0}) (ensure_new id ids)
unfolding ensure_new
ensure_new-Ensures id [] = tt
ensure_new-Ensures id (j ∷ ids) = ground (arith, ensure_new-Ensures id ids)

ensure_distinct-Ensures : (ids : List ℕ) → Ensures (λ _. Unit {0}) (ensure_distinct ids)
unfolding ensure_distinct
ensure_distinct-Ensures [] = tt
ensure_distinct-Ensures (id ∷ ids) =
    Ensures-bind (λ _. Unit {0}) (λ _. Unit {0}) (ensure_new id ids) (λ _. ensure_distinct ids)
      (ensure_new-Ensures id ids) (λ _ _. ensure_distinct-Ensures ids)

ensure_owned-Ensures :
    (env : Env) (who : AccountId) (ids : List ℕ)
    → Ensures (λ _. Unit {0}) (ensure_owned env who ids)
unfolding ensure_owned owned_card
ensure_owned-Ensures env who [] = tt
ensure_owned-Ensures env who (id ∷ ids) = ground (arith, ensure_owned-Ensures env who ids)

build_hand-Ensures :
    (env : Env) (who : AccountId) (ids : List ℕ) (hand : List HandEntry)
    → Ensures (λ _. Unit {0}) (build_hand env who ids hand)
unfolding build_hand owned_card
build_hand-Ensures env who [] hand = tt
build_hand-Ensures env who (id ∷ ids) hand = elim (Option-cases (env.cards id)) [
  | inl missing ↦ ground arith
  | inr (info, found) ↦
      ground (arith, build_hand-Ensures env who ids (hand ++ entry_of id info ∷ []))
]

-- `set_current_hand` does not panic, and keeps the invariant.
pub set_current_hand-Ensures :
    (env : Env) (origin : Origin) (ids : List ℕ) (s : Store)
    → Inv s
    → Ensures Inv (set_current_hand env origin ids s)
unfolding set_current_hand
set_current_hand-Ensures env origin ids s v = signed-bind Inv origin _ λ who _.
    ensure-bind Inv (length ids == env.hand_size) hand_size_invalid _ λ _.
      Ensures-bind (λ _. Unit {0}) Inv (ensure_distinct ids) _ (ensure_distinct-Ensures ids)
        λ _ _.
          Ensures-bind (λ _. Unit {0}) Inv (ensure_owned env who ids) _
            (ensure_owned-Ensures env who ids)
            λ _ _.
              ensure-bind Inv (leb (length ids) hand_limit) hand_size_invalid _ λ _. record {
                games = v.games;
                fits = v.fits;
                active = v.active;
                recents = v.recents;
              }

add_ai_hand-Inv :
    (env : Env) (id : GameId) (made : Option (List HandEntry)) (s : Store)
    → Inv s
    → Inv (add_ai_hand env id made s)
unfolding add_ai_hand
add_ai_hand-Inv env id made s v = elim (Bool-cases (is_some (s.hands_of_game id env.ai_account))) [
  | inl there ↦ rw there v
  | inr none_yet ↦ rw none_yet (added made)
]
  where
    added :
        (o : Option (List HandEntry))
        → Inv (elim o [ none ↦ s | some hand ↦ put_hand id env.ai_account hand s ])
    added none = v
    added (some hand) = put_hand-Inv id env.ai_account hand s v

-- `submit_hand` does not panic, and keeps the invariant.
pub submit_hand-Ensures :
    (env : Env) (origin : Origin) (id : GameId) (card_ids : List ℕ) (s : Store)
    → Inv s
    → Ensures Inv (submit_hand env origin id card_ids s)
unfolding submit_hand
submit_hand-Ensures env origin id card_ids s v = signed-bind Inv origin _ λ who _.
    ok_or-bind Inv (s.game_storage id) game_not_found _ λ g _.
      ensure-bind Inv (contains g.players who) player_not_in_game _ λ _.
        ensure-bind Inv (if is_some (s.hands_of_game id who) then false else true)
          hand_already_submitted _
          λ _. ok_or-bind Inv (s.current_hand_of who) preset_hand_missing _ λ ids _.
            ensure-bind Inv (length ids == env.hand_size) hand_size_invalid _ λ _.
              Ensures-bind (λ _. Unit {0}) Inv (ensure_distinct ids) _ (ensure_distinct-Ensures ids)
                λ _ _.
                  Ensures-bind (λ _. Unit {0}) Inv (build_hand env who ids []) _
                    (build_hand-Ensures env who ids [])
                    λ hand _.
                      let s1 = deposit_event (hand_submitted id who) (put_hand id who hand s) in
                      let made = generate_ai_hand_for_game env id who s1 in
                      let i =
                        deposit_event-Inv (hand_submitted id who) _
                          (put_hand-Inv id who hand s v) in
                      if-Ensures Inv (is_pve (s1.game_modes id))
                        (let_ai_play env id (add_ai_hand env id made s1)) (ok s1)
                        (λ _. let_ai_play-Ensures env id _ (add_ai_hand-Inv env id made s1 i))
                        (λ _. i)
