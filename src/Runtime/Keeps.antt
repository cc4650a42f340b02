-- ===== src/Runtime/Keeps.antt =====
-- What a call of each pallet keeps of its invariant, in the runtime of runtime/src/lib.rs.
use eterra_polkadot_sdk_solo.Prelude.{
  ℕ, ==_iff, ◌+◌, ◌≤◌, ◌<◌, ◌≡◌, ◌≢◌, refl, sym, subst, ◌==◌, inl, inr, Bool-cases, arith, u32_mod,
  if◌then◌else◌,
}
use eterra_polkadot_sdk_solo.Prelude.Results.{
  Result, ok, err, bad_origin, passed_on, panic, Origin, signed, root, unsigned,
}
use eterra_polkadot_sdk_solo.Prelude.Ensures.{Ensures}
use eterra_polkadot_sdk_solo.Eterra.Types.{Error, AccountId, GameId}
use eterra_polkadot_sdk_solo.Eterra.Store.{Env}
use eterra_polkadot_sdk_solo.Eterra.Create.{do_create_pvp_game}
use eterra_polkadot_sdk_solo.Eterra.Invariant
use eterra_polkadot_sdk_solo.Eterra.Safety.Calls.{do_create_pvp_game-Ensures}
use eterra_polkadot_sdk_solo.Bridge.{created_or, do_create_pvp_game-calm, game_hooks}
use eterra_polkadot_sdk_solo.Matchmaker.Lockout.{Stands}
use eterra_polkadot_sdk_solo.Runtime.Config.{Outside, queue_config, pack_env, slots_env}
use eterra_polkadot_sdk_solo.Runtime.Chain.{RuntimeError, lifted, queued, rolls_by, counted_after}
use eterra_polkadot_sdk_solo.Tcg.Frozen.{Frozen}
use eterra_polkadot_sdk_solo.DailySlots.Roll.{roll}
use eterra_polkadot_sdk_solo.DailySlots.Rolled.{roll-Rolled}
use eterra_polkadot_sdk_solo.DailySlots.Quiet.{Quiet-refl}
use eterra_polkadot_sdk_solo.Tcg.Calls.{mint_pack-Frozen}
use eterra_polkadot_sdk_solo.Tcg.Steps.{
  generate_slot-Frozen, accept_slot-Frozen, transfer_card-Frozen,
}
use eterra_polkadot_sdk_solo.Matchmaker.Keeps.{
  join_queue-keeps, process_queue-keeps, leave_queue-games,
}
use eterra_polkadot_sdk_solo.Matchmaker.Steps.{
  join_queue-Stands, leave_queue-Stands, process_queue-Stands,
}
use eterra_polkadot_sdk_solo.Runtime.Calls.{
  SlotsCall, rolls, sets_reel_weights, sets_all_reel_weights, MatchmakerCall, joins_queue,
  leaves_queue, processes_queue, TcgCall, mints_pack, generates_slot, accepts_slot, transfers_card,
  dispatch_slots, dispatch_matchmaker, dispatch_tcg,
}
use eterra_polkadot_sdk_solo.Eterra.Store as Games
use eterra_polkadot_sdk_solo.DailySlots.Types as Slots
use eterra_polkadot_sdk_solo.Tcg.Types as Packs
use eterra_polkadot_sdk_solo.Matchmaker
use eterra_polkadot_sdk_solo.DailySlots.History as Rolling

pub lifted-eq-ok :
    {E A C : Type 0} (wrap : E → RuntimeError) (put : A → C) (r : Result E A) {t : C}
    → lifted wrap put r ≡ ok t
    → (a : A) × (r ≡ ok a) × (put a ≡ t)
unfolding lifted
lifted-eq-ok wrap put (ok a) e = (a, refl, cc)
lifted-eq-ok wrap put (err x) e = cc
lifted-eq-ok wrap put bad_origin e = cc
lifted-eq-ok wrap put passed_on e = cc
lifted-eq-ok wrap put panic e = cc

-- The matchmaker's creation of a game, whether or not it succeeds.
created_or-Inv :
    (s : Games.Store) (r : Result Error (GameId × Games.Store))
    → Invariant.Inv s
    → Ensures (λ x. Invariant.Inv x.1) r
    → (calm : r ≢ panic) → Invariant.Inv (created_or s r calm)
unfolding created_or
created_or-Inv s (ok r) v e calm = e
created_or-Inv s (err x) v e calm = v
created_or-Inv s bad_origin v e calm = v
created_or-Inv s passed_on v e calm = v
created_or-Inv s panic v e calm = absurd e

game_hooks-Inv :
    (env : Env) (a b : AccountId) (s : Games.Store)
    → Invariant.Inv s
    → Invariant.Inv ((game_hooks env).create_from_matchmaking a b s)
unfolding game_hooks
game_hooks-Inv env a b s v =
    created_or-Inv s (do_create_pvp_game env a b s) v (do_create_pvp_game-Ensures env a b s v)
      (do_create_pvp_game-calm env a b s)

-- The matchmaker keeps the games well-formed, and its queue quiet.
pub dispatch_matchmaker-Sound :
    (env : Env) (origin : Origin) (c : MatchmakerCall) (n : ℕ) (s t : Matchmaker.Store Games.Store)
    → dispatch_matchmaker (game_hooks env) queue_config origin c s ≡ ok t
    → Invariant.Inv s.games
    → Stands 1024 n s
    → Invariant.Inv t.games × Stands 1024 (queued c n) t
unfolding dispatch_matchmaker
dispatch_matchmaker-Sound env origin joins_queue n s t e v st = (
  join_queue-keeps (game_hooks env) Invariant.Inv (game_hooks-Inv env) queue_config origin s t e v,
  join_queue-Stands (game_hooks env) queue_config n origin s t (omega arith) st e,
)
dispatch_matchmaker-Sound env origin leaves_queue n s t e v st = (
  subst Invariant.Inv (sym (leave_queue-games origin s t e)) v,
  leave_queue-Stands (game_hooks env) queue_config n origin s t st e,
)
dispatch_matchmaker-Sound env origin processes_queue n s t e v st = (
  process_queue-keeps (game_hooks env) Invariant.Inv (game_hooks-Inv env) queue_config origin s t e
      v,
  process_queue-Stands (game_hooks env) queue_config n origin s t st e,
)

module _ {B : Type 0} where
  -- What holds of the slot machine's storage, for every account and its rolls in the window.
  abbrev pub Rolls : (ℕ → ℕ) → ℕ → Slots.Store B → Type 0
  Rolls rolled block s = (a : ℕ) → (rolled a ≤ 3) × Rolling.Inv 3 100 a block (rolled a) s

  pub Rolls-balances :
      (rolled : ℕ → ℕ) (block : ℕ) (s : Slots.Store B) (b : B)
      → Rolls rolled block s
      → Rolls rolled block (record s { balances = b })
  Rolls-balances rolled block s b r a =
      let (few, v) = r a in
      (
        few,
        record {
          counted = v.counted;
          bounded = v.bounded;
          short = v.short;
          accounted = v.accounted;
        },
      )

  -- A later block.
  pub Rolls-later :
      (o : Outside B) (rolled : ℕ → ℕ) (block : ℕ) (s : Slots.Store B)
      → block ≤ o.block_number
      → Rolls rolled block s
      → Rolls (counted_after block o.block_number rolled (λ a. 0)) o.block_number s
  Rolls-later o rolled block s later r a =
      let v = Rolling.Quiet-Inv (slots_env o) refl refl later (r a).1 (Quiet-refl s) in
      (Rolling.Inv-few v, v)

  pub Rolls-step :
      (o : Outside B) (rolled new : ℕ → ℕ) (block : ℕ) (s t : Slots.Store B)
      → block ≤ o.block_number
      → Rolls rolled block s
      → ((a : ℕ) → Rolling.Step (slots_env o) a (new a) s t)
      → Rolls (counted_after block o.block_number rolled new) o.block_number t
  Rolls-step o rolled new block s t later r step a =
      let v = Rolling.Step-Inv (slots_env o) refl refl later (r a).1 (step a) in
      (Rolling.Inv-few v, v)

  roll-Step :
      (o : Outside B) (who : ℕ) (s t : Slots.Store B)
      → roll (slots_env o) (signed who) s ≡ ok t
      → (a : ℕ) → Rolling.Step (slots_env o) a (if a == who then 1 else 0) s t
  roll-Step o who s t e a = elim (Bool-cases (a == who)) [
    | inl same ↦
        let own : who ≡ a = sym ((==_iff a who).0 same) in
        rw same (Rolling.own_roll (subst (λ x. roll (slots_env o) (signed x) s ≡ ok t) own e))
    | inr other ↦ rw other (Rolling.other_roll who (λ same. ground (arith, other, same)) e)
  ]

  pub dispatch_slots-Step :
      (o : Outside B) (origin : Origin) (c : SlotsCall) (s t : Slots.Store B)
      → dispatch_slots (slots_env o) origin c s ≡ ok t
      → (a : ℕ) → Rolling.Step (slots_env o) a (rolls_by origin c a) s t
  unfolding dispatch_slots
  dispatch_slots-Step o (signed who) rolls s t e a = roll-Step o who s t e a
  dispatch_slots-Step o root rolls s t e a =
      let (who, is, _) = roll-Rolled (slots_env o) root s t e in cc
  dispatch_slots-Step o unsigned rolls s t e a =
      let (who, is, _) = roll-Rolled (slots_env o) unsigned s t e in cc
  dispatch_slots-Step o origin (sets_reel_weights reel weights) s t e a =
      Rolling.sets origin reel weights e
  dispatch_slots-Step o origin (sets_all_reel_weights all_weights) s t e a =
      Rolling.sets_all origin all_weights e

  pub dispatch_tcg-Frozen :
      (o : Outside B) (origin : Origin) (c : TcgCall) (s t : Packs.Store)
      → s.next_card_id + 5 < u32_mod
      → dispatch_tcg (pack_env o) origin c s ≡ ok t
      → Frozen 5 s
      → Frozen 5 t
  unfolding dispatch_tcg
  dispatch_tcg-Frozen o origin mints_pack s t small e v =
      mint_pack-Frozen 5 (pack_env o) origin s t refl small v e
  dispatch_tcg-Frozen o origin generates_slot s t small e v =
      generate_slot-Frozen 5 (omega arith) (pack_env o) origin s t v e
  dispatch_tcg-Frozen o origin accepts_slot s t small e v =
      accept_slot-Frozen 5 (omega arith) (pack_env o) origin s t v e
  dispatch_tcg-Frozen o origin (transfers_card id to) s t small e v =
      transfer_card-Frozen 5 (omega arith) origin id to s t v e
