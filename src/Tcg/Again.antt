-- ===== src/Tcg/Again.antt =====
-- What `generate_slot` of pallets/eterra-tcg/src/lib.rs does to the active card.
use eterra_polkadot_sdk_solo.Prelude.{
  ℕ, ◌+◌, ◌<◌, ◌≡◌, refl, Bool, List, ◌∷◌, ◌==◌, ==_refl, ltb, if◌then◌else◌, true, inl, inr,
  Bool-cases, some, arith,
}
use eterra_polkadot_sdk_solo.Prelude.Results.{ok, signed}
use eterra_polkadot_sdk_solo.Tcg.Types.{CardInfo, Pack, slot_generated, Store, Env}
use eterra_polkadot_sdk_solo.Tcg.Cards.{finalize, internal_finalize_card}
use eterra_polkadot_sdk_solo.Tcg.Packs.{active, put_pack, put_values, generate_slot}

-- The bytes of the hash.
abbrev pub values : Env → ℕ → List ℕ
values env player = env.slot_hash env.block_number player env.randomness_seed

-- It is the last attempt.
abbrev pub is_last : Env → ℕ → Bool
is_last env attempts = attempts + 1 == env.max_attempts

-- Where the player owns the active card of the last pack, and the count of its attempts is below the
-- maximum, `generate_slot` succeeds and gives the card the values of the hash, also where the card has
-- been finalized before. On the last attempt the card becomes final and the count starts again at 0;
-- on the others the card stays as final as it was, and the count grows by one.
pub generate_slot-again :
    (env : Env) (player : ℕ) (s : Store) (pack : Pack) (id : ℕ) (c : CardInfo)
    → active player s ≡ ok (pack, id, c)
    → s.card_attempts id < env.max_attempts
    → (t : Store) × (generate_slot env (signed player) s ≡ ok t)
      × (t.cards id
          ≡ some (record c {
            slot_values = some (values env player);
            finalized = if is_last env (s.card_attempts id) then true else c.finalized;
          }))
      × (t.card_attempts id
          ≡ (if is_last env (s.card_attempts id) then 0 else s.card_attempts id + 1))
unfolding generate_slot put_pack put_values internal_finalize_card finalize
generate_slot-again env player s pack id c got few =
    let below : ltb (s.card_attempts id) env.max_attempts ≡ true = ground (arith, few) in
    let s1 = put_values id c (values env player) s in
    let done : Pack × Store =
      (if is_last env (s.card_attempts id)
        then internal_finalize_card id pack s1
        else (pack, s1)) in
    let s2 = put_pack player done.0 done.1 in
    (
      record s2 { events = slot_generated id (values env player) ∷ s2.events },
      rw (got, below) refl,
      elim (Bool-cases (is_last env (s.card_attempts id))) [
        | inl last ↦ rw (last, ==_refl id) refl
        | inr more ↦ rw (more, ==_refl id) refl
      ],
      elim (Bool-cases (is_last env (s.card_attempts id))) [
        | inl last ↦ rw (last, ==_refl id) refl
        | inr more ↦ rw (more, ==_refl id) refl
      ],
    )
