-- ===== src/Tcg/Steps.antt =====
-- The calls of pallets/eterra-tcg/src/lib.rs on existing cards keep packs frozen.
use mathlib.Core.Option.{some-injective}
use eterra_polkadot_sdk_solo.Prelude.{
  ℕ, ◌+◌, ◌%◌, ◌≤◌, ◌≡◌, refl, sym, ap, ◌∙◌, subst, ◌==◌, ltb, if◌then◌else◌, is_some, true, inl,
  inr, Bool-cases, some, List, get_elem?, update,
}
use eterra_polkadot_sdk_solo.Prelude.Maps.{update-cases}
use eterra_polkadot_sdk_solo.Prelude.Each.{All}
use eterra_polkadot_sdk_solo.Prelude.Results.{ok, Origin}
use eterra_polkadot_sdk_solo.Prelude.Ensures.{
  signed-eq-ok, ensure-eq-ok, ok_or-eq-ok, >>=-eq-ok, ok_injective,
}
use eterra_polkadot_sdk_solo.Tcg.Types.{
  CardInfo, Pack, Event, max_attempts_exceeded, no_active_card, no_such_card, not_card_owner, Store,
  Env,
}
use eterra_polkadot_sdk_solo.Tcg.Cards.{internal_finalize_card}
use eterra_polkadot_sdk_solo.Tcg.Packs.{
  last_pack, active, put_pack, put_values, generate_slot, accept_slot, transfer_card,
}
use eterra_polkadot_sdk_solo.Tcg.Frozen.{range-two, IsFrozen, Frozen, internal_finalize_card-Frozen}
use eterra_polkadot_sdk_solo.Tcg.Calls.{last_pack-All, set_last-last_pack, Found, active-Found}

module _ (k : ℕ) (two : 2 ≤ k) where
  event-Frozen : (s : Store) (l : List Event) → Frozen k s → Frozen k (record s { events = l })
  event-Frozen s l v = record {
    aligned = v.aligned;
    exist = v.exist;
    heads = v.heads;
    active = v.active;
    packs = v.packs;
  }

  put_pack-Frozen :
      (player : ℕ) (pack : Pack) (s : Store)
      → last_pack (s.player_packs player) ≡ some pack
      → Frozen k s
      → Frozen k (put_pack player pack s)
  unfolding put_pack
  put_pack-Frozen player pack s last v = record {
    aligned = v.aligned;
    exist = v.exist;
    heads = v.heads;
    active = v.active;
    packs = λ p.
        update-cases (λ l. All (IsFrozen k s.next_card_id) l) s.player_packs player _ p
          (λ own.
            subst (All (IsFrozen k s.next_card_id))
              (sym (set_last-last_pack (s.player_packs player) pack last)) (v.packs player))
          (λ other. v.packs p);
  }

  -- A card is replaced by one that is as final.
  same_finality-Frozen :
      (id : ℕ) (c d : CardInfo) (s : Store) (attempts : ℕ → ℕ) (l : List Event)
      → s.cards id ≡ some c
      → d.finalized ≡ c.finalized
      → Frozen k s
      → Frozen k
          (record s { cards = update s.cards id (some d); card_attempts = attempts; events = l })
  same_finality-Frozen id c d s attempts l stored same v = record {
    aligned = v.aligned;
    exist = λ j lt.
        update-cases (λ o. is_some o ≡ true) s.cards id (some d) j (λ own. refl)
          (λ other. v.exist j lt);
    heads = λ j.
        update-cases (λ o. (e : CardInfo) → o ≡ some e → e.finalized ≡ true → j % k ≡ 0) s.cards id
          (some d) j
          (λ own e q f.
            subst (λ i. i % k ≡ 0) (sym own)
              (v.heads id c stored (sym same ∙ ap (λ z. z.finalized) (some-injective d e q) ∙ f)))
          (λ other. v.heads j);
    active = v.active;
    packs = v.packs;
  }

  -- The active card is the first of the last pack.
  base_of_active :
      (player : ℕ) (s : Store) (a : Pack × ℕ × CardInfo)
      → Frozen k s
      → Found player s a
      → (f : IsFrozen k s.next_card_id a.0) × (a.1 ≡ f.base)
  base_of_active player s a v found =
      let f =
        last_pack-All (IsFrozen k s.next_card_id) (s.player_packs player) a.0 (v.packs player)
          found.last in
      let (rest, split) = range-two f.base k two in
      let start : found.idx ≡ 0 = v.active player found.idx found.chosen in
      (
        f,
        some-injective a.1 f.base (
            sym found.listed
            ∙ ap (get_elem? a.0.card_ids) start
            ∙ ap (λ l. get_elem? l 0) (f.ids ∙ split)),
      )

  -- The active card is finalized.
  finalized-Frozen :
      (player : ℕ) (s : Store) (pack : Pack) (f : IsFrozen k s.next_card_id pack) (id : ℕ)
      → id ≡ f.base
      → last_pack (s.player_packs player) ≡ some pack
      → Frozen k s
      → let r = internal_finalize_card id pack s in Frozen k (put_pack player r.0 r.1)
  finalized-Frozen player s pack f id same last v =
      let (kept, w, packs) = internal_finalize_card-Frozen k two s v pack f in
      subst (λ i. let r = internal_finalize_card i pack s in Frozen k (put_pack player r.0 r.1))
        (sym same)
        (put_pack-Frozen player _ _
          (ap (λ g. last_pack (g player)) packs ∙ last ∙ ap some (sym kept)) w)

  pub generate_slot-Frozen :
      (env : Env) (origin : Origin) (s t : Store)
      → Frozen k s
      → generate_slot env origin s ≡ ok t
      → Frozen k t
  unfolding generate_slot put_values
  generate_slot-Frozen env origin s t v e =
      let (player, is, e1) = signed-eq-ok origin _ e in
      let (a, got, e2) = >>=-eq-ok (active player s) _ e1 in
      let (few, e3) =
        ensure-eq-ok (ltb (s.card_attempts a.1) env.max_attempts) max_attempts_exceeded _ e2 in
      let found = active-Found player s a got in
      let (f, head) = base_of_active player s a v found in
      let values = env.slot_hash env.block_number player env.randomness_seed in
      let s1 = put_values a.1 a.2 values s in
      let w : Frozen k s1 =
        same_finality-Frozen a.1 a.2 (record a.2 { slot_values = some values }) s
          (update s.card_attempts a.1 (s.card_attempts a.1 + 1)) s.events found.stored refl v in
      let branch : Frozen k (
          put_pack player
            (if s.card_attempts a.1 + 1 == env.max_attempts
              then internal_finalize_card a.1 a.0 s1
              else (a.0, s1)).0
            (if s.card_attempts a.1 + 1 == env.max_attempts
              then internal_finalize_card a.1 a.0 s1
              else (a.0, s1)).1) =
        elim (Bool-cases (s.card_attempts a.1 + 1 == env.max_attempts)) [
          | inl last_try ↦ rw last_try (finalized-Frozen player s1 a.0 f a.1 head found.last w)
          | inr more ↦ rw more (put_pack-Frozen player a.0 s1 found.last w)
        ] in
      subst (Frozen k) (ok_injective e3) (event-Frozen _ _ branch)

  pub accept_slot-Frozen :
      (env : Env) (origin : Origin) (s t : Store)
      → Frozen k s
      → accept_slot env origin s ≡ ok t
      → Frozen k t
  unfolding accept_slot
  accept_slot-Frozen env origin s t v e =
      let (player, is, e1) = signed-eq-ok origin _ e in
      let (a, got, e2) = >>=-eq-ok (active player s) _ e1 in
      let (generated, e3) = ensure-eq-ok (is_some a.2.slot_values) no_active_card _ e2 in
      let found = active-Found player s a got in
      let (f, head) = base_of_active player s a v found in
      subst (Frozen k) (ok_injective e3)
        (event-Frozen _ _ (finalized-Frozen player s a.0 f a.1 head found.last v))

  pub transfer_card-Frozen :
      (origin : Origin) (id to : ℕ) (s t : Store)
      → Frozen k s
      → transfer_card origin id to s ≡ ok t
      → Frozen k t
  unfolding transfer_card
  transfer_card-Frozen origin id to s t v e =
      let (from, is, e1) = signed-eq-ok origin _ e in
      let (c, stored, e2) = ok_or-eq-ok (s.cards id) no_such_card _ e1 in
      let (owned, e3) = ensure-eq-ok (c.owner == from) not_card_owner _ e2 in
      let (final, e4) = ensure-eq-ok c.finalized no_active_card _ e3 in
      subst (Frozen k) (ok_injective e4)
        (same_finality-Frozen id c (record c { owner = to }) s s.card_attempts _ stored refl v)
