-- ===== src/Runtime/Panics.antt =====
-- Which calls of the runtime, runtime/src/lib.rs, can panic.
use mathlib.Core.Option.{none-ne-some}
use eterra_polkadot_sdk_solo.Prelude.{
  ℕ, ◌+◌, ◌≤◌, ◌<◌, ◌≡◌, ◌≢◌, refl, sym, subst, is_some, some, none, inl, inr, List, [], ◌∷◌,
  length, update, Bool-cases, arith, u32_mod,
}
use eterra_polkadot_sdk_solo.Prelude.Each.{All}
use eterra_polkadot_sdk_solo.Prelude.Results.{Result, ok, err, bad_origin, passed_on, panic, Origin}
use eterra_polkadot_sdk_solo.Prelude.Ensures.{Ensures}
use eterra_polkadot_sdk_solo.DailySlots.Types.{Entry}
use eterra_polkadot_sdk_solo.DailySlots.Drawing.{default_weights, put_defaults, on_initialize}
use eterra_polkadot_sdk_solo.Eterra.Invariant
use eterra_polkadot_sdk_solo.Eterra.Safety.Reach
use eterra_polkadot_sdk_solo.SimpleTcg.Index
use eterra_polkadot_sdk_solo.SimpleTcg.History as Market
use eterra_polkadot_sdk_solo.DailySlots.Types as Slots
use eterra_polkadot_sdk_solo.Bridge.{game_hooks}
use eterra_polkadot_sdk_solo.Runtime.Config.{
  Outside, queue_config, game_env, pack_env, card_env, slots_env, faucet_env, gamer_env,
}
use eterra_polkadot_sdk_solo.Runtime.Fees.{RuntimeCall, eterra_faucet, claims, other_pallet}
use eterra_polkadot_sdk_solo.Runtime.Calls.{
  OtherCall, template_module, eterra, eterra_tcg, eterra_daily_slots, eterra_simple_tcg,
  eterra_monte_carlo_ai, eterra_simple_match_maker, eterra_gamer, game_call,
}
use eterra_polkadot_sdk_solo.Runtime.Chain.{
  Storage, RuntimeError, lifted, dispatch_other, dispatch, begin_block, Chain,
}
use eterra_polkadot_sdk_solo.Runtime.Levels.{IsLow, dispatch_gamer-Ensures}
use eterra_polkadot_sdk_solo.Runtime.Invariant.{Sound}
use eterra_polkadot_sdk_solo.Runtime.Sound.{Chain-Sound}
use eterra_polkadot_sdk_solo.Runtime.Calm.{
  template-calm, dispatch_tcg-calm, dispatch_matchmaker-calm, dispatch_slots-calm, claim-calm,
}

lifted-panic :
    {E A C : Type 0} (wrap : E → RuntimeError) (put : A → C) (r : Result E A)
    → lifted wrap put r ≡ panic
    → r ≡ panic
unfolding lifted
lifted-panic wrap put (ok a) e = cc
lifted-panic wrap put (err x) e = cc
lifted-panic wrap put bad_origin e = cc
lifted-panic wrap put passed_on e = cc
lifted-panic wrap put panic e = refl

-- `suggest_move` of the search.
abbrev IsSuggestMove : OtherCall → Type 0
IsSuggestMove (eterra_monte_carlo_ai state difficulty) = Unit
IsSuggestMove _ = ⊥

abbrev pub Suggests : RuntimeCall OtherCall → Type 0
Suggests (eterra_faucet c) = ⊥
Suggests (other_pallet c) = IsSuggestMove c

module _ {B : Type 0} where
  put_defaults-some :
      (env : Slots.Env B) (l : List (ℕ × List Entry)) (s : Slots.Store B)
      → All (λ r. length r.1 ≤ env.max_weight_entries) l
      → put_defaults env l s ≢ none
  unfolding put_defaults
  put_defaults-some env [] s fit e = none-ne-some s (sym e)
  put_defaults-some env (r ∷ l) s (fits, fit) e = elim (Bool-cases (is_some (s.reel_weights r.0))) [
    | inl set ↦ put_defaults-some env l s fit (ground (arith, e, set))
    | inr unset ↦
        put_defaults-some env l (record s { reel_weights = update s.reel_weights r.0 (some r.1) })
          fit (ground (arith, e, unset, fits))
  ]

  begin_block-some : (o : Outside B) (s : Storage B) → begin_block o s ≢ none
  unfolding begin_block on_initialize
  begin_block-some o s e = ground (
    arith,
    e,
    put_defaults-some (slots_env o) default_weights (record s.slots { balances = s.balances })
        (omega arith, (omega arith, (omega arith, tt))),
  )

  dispatch_other-panic :
      (o : Outside B) (origin : Origin) (c : OtherCall) {joins : ℕ} {rolled : ℕ → ℕ} (block : ℕ)
      (s : Storage B)
      → s.cards.next_card_id + 1 < u32_mod
      → Sound joins rolled block s
      → dispatch_other o origin c s ≡ panic
      → IsSuggestMove c
  unfolding dispatch_other
  dispatch_other-panic o origin (template_module c) block s ids v e =
      absurd (template-calm origin c s.template (lifted-panic _ _ _ e))
  dispatch_other-panic o origin (eterra c) block s ids v e = absurd (
      subst (Ensures Invariant.Inv) (lifted-panic _ _ _ e) (
        Reach.dispatch-Ensures (game_env o s.cards.cards) origin (game_call c) s.queue.games refl
          v.games))
  dispatch_other-panic o origin (eterra_tcg c) block s ids v e =
      absurd (dispatch_tcg-calm (pack_env o) origin c s.packs (lifted-panic _ _ _ e))
  dispatch_other-panic o origin (eterra_daily_slots c) block s ids v e = absurd (
      dispatch_slots-calm (slots_env o) origin c (record s.slots { balances = s.balances })
        (omega arith) (lifted-panic _ _ _ e))
  dispatch_other-panic o origin (eterra_simple_tcg c) block s ids v e = absurd (
      subst (Ensures Index.Inv) (lifted-panic _ _ _ e) (
        Market.dispatch-Ensures (card_env o) origin c (record s.cards { balances = s.balances }) ids
          (record {
            owned = v.cards.owned;
            listed = v.cards.listed;
            unpriced = v.cards.unpriced;
            fresh = v.cards.fresh;
          })))
  dispatch_other-panic o origin (eterra_monte_carlo_ai state difficulty) block s ids v e = tt
  dispatch_other-panic o origin (eterra_simple_match_maker c) block s ids v e = absurd (
      dispatch_matchmaker-calm (game_hooks (game_env o s.cards.cards)) queue_config origin c s.queue
        (lifted-panic _ _ _ e))
  dispatch_other-panic o origin (eterra_gamer c) block s ids v e = absurd (
      subst (Ensures IsLow) (lifted-panic _ _ _ e) (
        dispatch_gamer-Ensures (gamer_env o) origin c (record s.gamers { balances = s.balances })
          v.levels))

  dispatch-panic :
      (o : Outside B) (origin : Origin) (c : RuntimeCall OtherCall) {joins : ℕ} {rolled : ℕ → ℕ}
      (block : ℕ) (s : Storage B)
      → s.cards.next_card_id + 1 < u32_mod
      → Sound joins rolled block s
      → dispatch o origin c s ≡ panic
      → Suggests c
  unfolding dispatch
  dispatch-panic o origin (eterra_faucet (claims dest)) block s ids v e = absurd (
      claim-calm (faucet_env o) origin dest (record s.faucet { balances = s.balances })
        (lifted-panic _ _ _ e))
  dispatch-panic o origin (other_pallet c) block s ids v e =
      dispatch_other-panic o origin c block s ids v e

  -- From the storage that any blocks of calls lead to, while ids of cards are left, and whatever
  -- is outside: no call but the search's `suggest_move` panics, the calls on which the AI's
  -- search runs included, and the hook of a block does not.
  pub Chain-dispatch :
      {joins : ℕ} {rolled : ℕ → ℕ} {block : ℕ} {s : Storage B}
      → Chain joins rolled block s
      → s.cards.next_card_id + 1 < u32_mod
      → (o : Outside B) (origin : Origin) (c : RuntimeCall OtherCall) → ¬ (Suggests c)
      → (dispatch o origin c s ≢ panic) × (begin_block o s ≢ none)
  Chain-dispatch {block = block} {s = s} past ids o origin c other = (
    λ e. other (dispatch-panic o origin c block s ids (Chain-Sound past) e),
    begin_block-some o s,
  )
