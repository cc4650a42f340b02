-- ===== src/Runtime/Sound.antt =====
-- The invariants of the pallets hold together in the storage of the chain, runtime/src/lib.rs.
use eterra_polkadot_sdk_solo.Prelude.{
  ℕ, ◌+◌, ◌≤◌, ◌<◌, ◌≡◌, refl, subst, inl, inr, some, Option-cases, arith, u32_mod,
}
use eterra_polkadot_sdk_solo.Prelude.Results.{ok, Origin}
use eterra_polkadot_sdk_solo.Prelude.Ensures.{Ensures}
use eterra_polkadot_sdk_solo.Eterra.Invariant
use eterra_polkadot_sdk_solo.Runtime.Config.{Outside, game_env, slots_env, gamer_env}
use eterra_polkadot_sdk_solo.Runtime.Chain.{
  Storage, put_games, put_slots, put_cards, dispatch_other, dispatch, begin_block, genesis, Chain,
  starts, calls, begins, pays, queued, joins_after, rolls_by, rolls_of, counted_after,
}
use eterra_polkadot_sdk_solo.Runtime.Calls.{
  OtherCall, template_module, eterra, eterra_tcg, eterra_daily_slots, eterra_simple_tcg,
  eterra_monte_carlo_ai, eterra_simple_match_maker, eterra_gamer, game_call,
}
use eterra_polkadot_sdk_solo.Matchmaker.History.{genesis-Stands}
use eterra_polkadot_sdk_solo.DailySlots.Drawing.{on_initialize}
use mathlib.Core.Option.{some-injective}
use eterra_polkadot_sdk_solo.Runtime.Fees.{RuntimeCall, eterra_faucet, claims, other_pallet}
use eterra_polkadot_sdk_solo.Faucet.{GenesisConfig}
use eterra_polkadot_sdk_solo.Eterra.Safety.Reach
use eterra_polkadot_sdk_solo.SimpleTcg.History as Market
use eterra_polkadot_sdk_solo.Tcg.History as Minting
use eterra_polkadot_sdk_solo.DailySlots.History as Rolling
use eterra_polkadot_sdk_solo.Runtime.Levels.{IsLow, dispatch_gamer-Ensures}
use eterra_polkadot_sdk_solo.Runtime.Keeps.{
  lifted-eq-ok, dispatch_matchmaker-Sound, dispatch_slots-Step, dispatch_tcg-Frozen,
}
use eterra_polkadot_sdk_solo.Runtime.Invariant.{
  Sound, later-Sound, beside-Sound, put_games-Sound, put_slots-Sound, put_cards-Sound,
  put_packs-Sound, put_queue-Sound,
}

module _ {B : Type 0} where
  genesis-Sound :
      (block : ℕ) (config : GenesisConfig) (b : B) → Sound 0 (λ a. 0) block (genesis config b)
  unfolding genesis
  genesis-Sound block config b = record {
    games = Reach.genesis-Inv;
    waits = genesis-Stands 1024 Reach.genesis;
    cards = Market.genesis-Inv b;
    packs = Minting.History-Frozen {k = 5} (omega arith) Minting.start;
    rolls = λ a. (omega arith, Rolling.History-Inv (Rolling.start block b));
    levels = λ a. omega arith;
  }

  dispatch_other-Sound :
      {joins : ℕ} {rolled : ℕ → ℕ} (o : Outside B) (origin : Origin) (c : OtherCall) (block : ℕ)
      (s t : Storage B)
      → block ≤ o.block_number
      → s.cards.next_card_id + 1 < u32_mod
      → s.packs.next_card_id + 5 < u32_mod
      → dispatch_other o origin c s ≡ ok t
      → Sound joins rolled block s
      → Sound
          (joins_after (other_pallet c) joins)
          (counted_after block o.block_number rolled (rolls_of origin (other_pallet c)))
          o.block_number
          t
  unfolding dispatch_other put_games put_slots put_cards
  dispatch_other-Sound {joins} {rolled} o origin (template_module c) block s t later ids small e v =
      let (u, _, q) = lifted-eq-ok _ _ _ e in
      subst (Sound joins (counted_after block o.block_number rolled (λ a. 0)) o.block_number) q (
        beside-Sound o.block_number s u s.faucet s.gamers s.balances v.levels
          (later-Sound o block s later v))
  dispatch_other-Sound {joins} {rolled} o origin (eterra c) block s t later ids small e v =
      let (u, p, q) = lifted-eq-ok _ _ _ e in
      let well =
        Reach.dispatch-Ensures (game_env o s.cards.cards) origin (game_call c) s.queue.games refl
          v.games in
      subst (Sound joins (counted_after block o.block_number rolled (λ a. 0)) o.block_number) q (
        put_games-Sound o.block_number s u (subst (Ensures Invariant.Inv) p well)
          (later-Sound o block s later v))
  dispatch_other-Sound {joins} {rolled} o origin (eterra_tcg c) block s t later ids small e v =
      let (u, p, q) = lifted-eq-ok _ _ _ e in
      subst (Sound joins (counted_after block o.block_number rolled (λ a. 0)) o.block_number) q (
        put_packs-Sound o.block_number s u
          (dispatch_tcg-Frozen o origin c s.packs u small p v.packs)
          (later-Sound o block s later v))
  dispatch_other-Sound {joins} {rolled} o origin (eterra_daily_slots c) block s t later ids small e
        v =
      let (u, p, q) = lifted-eq-ok _ _ _ e in
      subst
        (Sound joins (counted_after block o.block_number rolled (rolls_by origin c)) o.block_number)
        q
        (put_slots-Sound o (rolls_by origin c) block s u later
          (dispatch_slots-Step o origin c _ u p) v)
  dispatch_other-Sound {joins} {rolled} o origin (eterra_simple_tcg c) block s t later ids small e
        v =
      let (u, p, q) = lifted-eq-ok _ _ _ e in
      subst (Sound joins (counted_after block o.block_number rolled (λ a. 0)) o.block_number) q
        (put_cards-Sound o origin c o.block_number s u ids p (later-Sound o block s later v))
  dispatch_other-Sound {joins} {rolled} o origin (eterra_monte_carlo_ai state d) block s t later ids
        small e v =
      let (u, _, q) = lifted-eq-ok _ _ _ e in
      subst (Sound joins (counted_after block o.block_number rolled (λ a. 0)) o.block_number) q
        (later-Sound o block s later v)
  dispatch_other-Sound {joins} {rolled} o origin (eterra_simple_match_maker c) block s t later ids
        small e v =
      let (u, p, q) = lifted-eq-ok _ _ _ e in
      let (well, stands) =
        dispatch_matchmaker-Sound (game_env o s.cards.cards) origin c joins s.queue u p v.games
          v.waits in
      subst
        (Sound (queued c joins) (counted_after block o.block_number rolled (λ a. 0)) o.block_number)
        q
        (put_queue-Sound o.block_number (queued c joins) s u well stands
          (later-Sound o block s later v))
  dispatch_other-Sound {joins} {rolled} o origin (eterra_gamer c) block s t later ids small e v =
      let (u, p, q) = lifted-eq-ok _ _ _ e in
      subst (Sound joins (counted_after block o.block_number rolled (λ a. 0)) o.block_number) q (
        beside-Sound o.block_number s s.template s.faucet u u.balances
          (subst (Ensures IsLow) p (dispatch_gamer-Ensures (gamer_env o) origin c _ v.levels))
          (later-Sound o block s later v))

  dispatch-Sound :
      {joins : ℕ} {rolled : ℕ → ℕ} (o : Outside B) (origin : Origin) (c : RuntimeCall OtherCall)
      (block : ℕ) (s t : Storage B)
      → block ≤ o.block_number
      → s.cards.next_card_id + 1 < u32_mod
      → s.packs.next_card_id + 5 < u32_mod
      → dispatch o origin c s ≡ ok t
      → Sound joins rolled block s
      → Sound
          (joins_after c joins)
          (counted_after block o.block_number rolled (rolls_of origin c))
          o.block_number
          t
  unfolding dispatch
  dispatch-Sound {joins} {rolled} o origin (eterra_faucet (claims dest)) block s t later ids small e
        v =
      let (u, _, q) = lifted-eq-ok _ _ _ e in
      subst (Sound joins (counted_after block o.block_number rolled (λ a. 0)) o.block_number) q (
        beside-Sound o.block_number s s.template u s.gamers u.balances v.levels
          (later-Sound o block s later v))
  dispatch-Sound o origin (other_pallet c) block s t later ids small e v =
      dispatch_other-Sound o origin c block s t later ids small e v

  begin_block-Sound :
      {joins : ℕ} {rolled : ℕ → ℕ} (o : Outside B) (block : ℕ) (s t : Storage B)
      → block ≤ o.block_number
      → begin_block o s ≡ some t
      → Sound joins rolled block s
      → Sound joins (counted_after block o.block_number rolled (λ a. 0)) o.block_number t
  unfolding begin_block
  begin_block-Sound {joins} {rolled} o block s t later e v =
      elim (Option-cases (on_initialize (slots_env o) (record s.slots { balances = s.balances }))) [
        | inl failed ↦ absurd (ground (arith, e, failed))
        | inr (u, began) ↦
            let q : put_slots s u ≡ t = some-injective _ t (ground (arith, e, began)) in
            subst (Sound joins (counted_after block o.block_number rolled (λ a. 0)) o.block_number)
              q (put_slots-Sound o (λ a. 0) block s u later (λ a. Rolling.begins began) v)
      ]

  -- In the storage that any blocks of calls lead to, while ids of cards are left, each pallet's
  -- invariant holds: the stored games and the markers of active games fit together (each game has
  -- two distinct players and a turn that names one of them, a marked account plays in a stored game
  -- that is being played, no score is above 255, and at most ten games are listed as recent); at
  -- most one account waits in the queue, its head is 0 and its tail is the number of those calls
  -- that joined it, at most 1024; the lists of cards and of offers agree with the cards; no pack of
  -- five is completed and only first cards are final; of those calls at most 3 are rolls of an
  -- account in the window of the block, and its count for that window is their number; it has at most 100
  -- results; no player's level is above 99; and the total of the tickets is the sum of those of the
  -- accounts, unless it has reached the largest `u32`.
  pub Chain-Sound :
      {joins : ℕ} {rolled : ℕ → ℕ} {block : ℕ} {s : Storage B}
      → Chain joins rolled block s
      → Sound joins rolled block s
  Chain-Sound (starts block config b) = genesis-Sound block config b
  Chain-Sound (calls {block = block} {s = s} {t = t} past o origin c later ids small e) =
      dispatch-Sound o origin c block s t later ids small e (Chain-Sound past)
  Chain-Sound (begins {block = block} {s = s} {t = t} past o later e) =
      begin_block-Sound o block s t later e (Chain-Sound past)
  Chain-Sound (pays {block = block} {s = s} past b) =
      let v = Chain-Sound past in beside-Sound block s s.template s.faucet s.gamers b v.levels v
