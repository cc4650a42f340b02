-- ===== src/Runtime/Calm.antt =====
-- The calls of the pallets that runtime/src/lib.rs composes, one by one, do not panic.
use eterra_polkadot_sdk_solo.Prelude.{
  ℕ, refl, subst, update, zero, suc, ◌+◌, ◌≤◌, ◌≡◌, ◌≢◌, leb, ltb, ◌&&◌, some, List, [], ◌∷◌, ◌++◌,
  length, arith,
}
use eterra_polkadot_sdk_solo.Prelude.Results.{
  Result, ok, err, bad_origin, passed_on, panic, Origin, ensure_signed, signed, root, unsigned,
  ◌>>=◌,
}
use eterra_polkadot_sdk_solo.Prelude.Ensures.{Ensures, Ensures-bind, ensure-bind, signed-bind}
use eterra_polkadot_sdk_solo.Tcg.Cards.{create_cards, create_new_card}
use eterra_polkadot_sdk_solo.Tcg.Packs.{
  active, mint_pack, generate_slot, accept_slot, transfer_card,
}
use eterra_polkadot_sdk_solo.DailySlots.Reels.{
  spin_reel, spin, update_reel_weights, set_reel_weights, update_all, set_all_reel_weights,
}
use eterra_polkadot_sdk_solo.DailySlots.Roll.{used_rolls, settle, push_history, roll}
use eterra_polkadot_sdk_solo.Faucet.{claim}
use eterra_polkadot_sdk_solo.Template.{do_something, cause_error}
use eterra_polkadot_sdk_solo.Matchmaker.{
  Hooks, Config, deposit_event, processing_started, do_process, enqueue, join_queue, leave_queue,
  process_queue,
}
use eterra_polkadot_sdk_solo.Matchmaker.Process.{do_process-total}
use eterra_polkadot_sdk_solo.Runtime.Calls.{
  TcgCall, mints_pack, generates_slot, accepts_slot, transfers_card, SlotsCall, rolls,
  sets_reel_weights, sets_all_reel_weights, MatchmakerCall, joins_queue, leaves_queue,
  processes_queue, dispatch_tcg, dispatch_slots, dispatch_matchmaker,
}
use eterra_polkadot_sdk_solo.Template as Something
use eterra_polkadot_sdk_solo.Template.History as Storing
use eterra_polkadot_sdk_solo.Tcg.Types as Packs
use eterra_polkadot_sdk_solo.DailySlots.Types as Slots
use eterra_polkadot_sdk_solo.Matchmaker
use eterra_polkadot_sdk_solo.Faucet

-- A call of a signed origin that panics; and no panic, as what a result ensures.
module _ {E : Type 0} where
  signed-panic :
      {A : Type 0} (o : Origin) (f : ℕ → Result E A)
      → (ensure_signed o >>= f) ≡ panic
      → (who : ℕ) × (f who ≡ panic)
  signed-panic (signed who) f e = (who, e)
  signed-panic root f e = cc
  signed-panic unsigned f e = cc

  from_Ensures : {A : Type 0} (r : Result E A) → Ensures (λ _. Unit {0}) r → r ≢ panic
  from_Ensures r calm e = subst (Ensures (λ _. Unit {0})) e calm

  to_Ensures : {A : Type 0} (r : Result E A) → r ≢ panic → Ensures (λ _. Unit {0}) r
  to_Ensures (ok a) calm = tt
  to_Ensures (err x) calm = tt
  to_Ensures bad_origin calm = tt
  to_Ensures passed_on calm = tt
  to_Ensures panic calm = calm refl

pub template-calm :
    (origin : Origin) (c : Storing.Call) (s : Something.Store) → Storing.dispatch origin c s ≢ panic
unfolding Storing.dispatch do_something cause_error
template-calm origin (Storing.does_something v) s e = ground (arith, e)
template-calm origin Storing.causes_error s e = ground (arith, e)

create_cards-calm :
    (n owner : ℕ) (ids : List ℕ) (s : Packs.Store) → create_cards n owner ids s ≢ panic
unfolding create_cards
create_cards-calm zero owner ids s e = ground (arith, e)
create_cards-calm (suc n) owner ids s e =
    ground
      (arith, e, create_cards-calm n owner (ids ++ s.next_card_id ∷ []) (create_new_card owner s).1)

active-calm : (player : ℕ) (s : Packs.Store) → active player s ≢ panic
unfolding active
active-calm player s e = ground (arith, e)

pub dispatch_tcg-calm :
    (env : Packs.Env) (origin : Origin) (c : TcgCall) (s : Packs.Store)
    → dispatch_tcg env origin c s ≢ panic
unfolding dispatch_tcg mint_pack generate_slot accept_slot transfer_card
dispatch_tcg-calm env origin mints_pack s e =
    let (player, f) = signed-panic origin _ e in
    ground (arith, f, create_cards-calm env.cards_per_pack player [] s)
dispatch_tcg-calm env origin generates_slot s e =
    let (player, f) = signed-panic origin _ e in ground (arith, f, active-calm player s)
dispatch_tcg-calm env origin accepts_slot s e =
    let (player, f) = signed-panic origin _ e in ground (arith, f, active-calm player s)
dispatch_tcg-calm env origin (transfers_card id to) s e = ground (arith, e)

pub dispatch_matchmaker-calm :
    {G : Type 0} (hooks : Hooks G) (config : Config) (origin : Origin) (c : MatchmakerCall)
    (s : Matchmaker.Store G)
    → dispatch_matchmaker hooks config origin c s ≢ panic
unfolding dispatch_matchmaker join_queue leave_queue process_queue
dispatch_matchmaker-calm hooks config origin joins_queue s e =
    let (who, f) = signed-panic origin _ e in
    ground (arith, f, (do_process-total hooks config.queue_capacity (enqueue config who s)).1)
dispatch_matchmaker-calm hooks config origin leaves_queue s e = ground (arith, e)
dispatch_matchmaker-calm hooks config origin processes_queue s e = ground (
  arith,
  e,
  (do_process-total hooks config.queue_capacity
      (deposit_event (processing_started s.live_size s.head s.tail) s)).1,
)

module _ {B : Type 0} where
  spin_reel-calm :
      (env : Slots.Env B) (who reel : ℕ) (s : Slots.Store B) → spin_reel env who reel s ≢ panic
  unfolding spin_reel
  spin_reel-calm env who reel s e = ground (arith, e)

  spin-calm :
      (env : Slots.Env B) (who left reel : ℕ) (s : Slots.Store B) → spin env who left reel s ≢ panic
  unfolding spin
  spin-calm env who zero reel s e = ground (arith, e)
  spin-calm env who (suc left) reel s e =
      ground (arith, e, spin_reel-calm env who reel s, spin-calm env who left (reel + 1) s)

  update_all-calm :
      (env : Slots.Env B) (l : List (ℕ × List Slots.Entry)) (s : Slots.Store B)
      → update_all env l s ≢ panic
  unfolding update_all update_reel_weights
  update_all-calm env [] s e = ground (arith, e)
  update_all-calm env ((r, w) ∷ l) s e = ground (
    arith,
    e,
    update_all-calm env l (record s { reel_weights = update s.reel_weights r (some w) }),
  )

  push_history-calm :
      (env : Slots.Env B) (who : ℕ) (r : Slots.RollResult) (s : Slots.Store B)
      → 1 ≤ env.max_history
      → push_history env who r s ≢ panic
  unfolding push_history
  push_history-calm env who r s some_room e = ground (arith, e, some_room)

  roll-calm :
      (env : Slots.Env B) (origin : Origin) (s : Slots.Store B)
      → 1 ≤ env.max_history
      → roll env origin s ≢ panic
  unfolding roll
  roll-calm env origin s room = from_Ensures (roll env origin s) (
      signed-bind Q origin _ λ who _.
        ensure-bind Q (ltb 0 env.slot_length && ltb 0 env.options_per_slot && ltb 0 env.max_rolls)
          Slots.invalid_configuration _
          λ _.
            ensure-bind Q (ltb (used_rolls env who s) env.max_rolls) Slots.exceed_rolls_per_round _
              λ _.
                Ensures-bind (λ _. Unit {0}) Q (spin env who env.slot_length 0 s) _
                  (to_Ensures _ (spin-calm env who env.slot_length 0 s))
                  λ result _.
                    ensure-bind Q (leb (length result) env.slot_length) Slots.invalid_configuration
                      _
                      λ _. to_Ensures _ (
                        push_history-calm env who
                          (record { timestamp = env.now_secs; result = result })
                          (settle env who (used_rolls env who s) result s) room))
    where
      Q : Slots.Store B → Type 0
      Q _ = Unit

  pub dispatch_slots-calm :
      (env : Slots.Env B) (origin : Origin) (c : SlotsCall) (s : Slots.Store B)
      → 1 ≤ env.max_history
      → dispatch_slots env origin c s ≢ panic
  unfolding dispatch_slots roll set_reel_weights set_all_reel_weights update_reel_weights
  dispatch_slots-calm env origin rolls s room e = roll-calm env origin s room e
  dispatch_slots-calm env origin (sets_reel_weights reel weights) s room e = ground (arith, e)
  dispatch_slots-calm env origin (sets_all_reel_weights all_weights) s room e =
      ground (arith, e, update_all-calm env all_weights s)

  pub claim-calm :
      (env : Faucet.Env B) (origin : Origin) (dest : ℕ) (s : Faucet.Store B)
      → claim env origin dest s ≢ panic
  unfolding claim
  claim-calm env origin dest s e = ground (arith, e)
