-- ===== src/Tcg/Cards.antt =====
-- The helpers of pallets/eterra-tcg/src/lib.rs: cards are created and finalized.
use eterra_polkadot_sdk_solo.Prelude.{
  ℕ, zero, suc, ◌+◌, ◌%◌, ltb, if◌then◌else◌, Bool, true, false, ◌&&◌, Option, none, some, List, [],
  ◌∷◌, ◌++◌, length, update, u32_mod,
}
use eterra_polkadot_sdk_solo.Prelude.Results.{Result, ok, ensure, ◌>>◌}
use eterra_polkadot_sdk_solo.Tcg.Types.{
  CardInfo, Pack, slot_finalized, Error, max_packs_reached, Store,
}

unfoldable pub create_new_card : ℕ → Store → ℕ × Store
create_new_card owner s = (
  s.next_card_id,
  record s {
    cards =
        update s.cards s.next_card_id
          (some (record { owner = owner; finalized = false; slot_values = none }));
    next_card_id = (s.next_card_id + 1) % u32_mod;
  },
)

-- The loop of `mint_pack`, with the ids so far, of which a pack holds 16.
unfoldable pub create_cards : ℕ → ℕ → List ℕ → Store → Result Error (List ℕ × Store)
unfolding create_new_card
create_cards zero owner card_ids s = ok (card_ids, s)
create_cards (suc n) owner card_ids s = do
  let r = create_new_card owner s
  ensure (ltb (length card_ids) 16) max_packs_reached
  create_cards n owner (card_ids ++ r.0 ∷ []) r.1

-- A card that is missing counts as finalized.
unfoldable pub is_final : Option CardInfo → Bool
is_final none = true
is_final (some c) = c.finalized

unfoldable pub all_final : (ℕ → Option CardInfo) → List ℕ → Bool
unfolding is_final
all_final cards [] = true
all_final cards (id ∷ ids) = is_final (cards id) && all_final cards ids

unfoldable pub finalize : Option CardInfo → Option CardInfo
finalize none = none
finalize (some c) = some (record c { finalized = true })

-- The pack of the caller, and the storage.
unfoldable pub internal_finalize_card : ℕ → Pack → Store → Pack × Store
unfolding finalize all_final
internal_finalize_card card_id pack s =
    let cards = update s.cards card_id (finalize (s.cards card_id)) in
    (
      (if all_final cards pack.card_ids then record pack { completed = true } else pack),
      record s {
        cards = cards;
        card_attempts = update s.card_attempts card_id 0;
        events = slot_finalized card_id ∷ s.events;
      },
    )
