-- ===== src/Tcg/Examples.antt =====
-- Concrete runs of pallets/eterra-tcg/src/lib.rs.
use eterra_polkadot_sdk_solo.Prelude.{
  ℕ, ◌+◌, ◌%◌, ◌≡◌, refl, true, false, some, [], ◌∷◌, if◌then◌else◌, arith,
}
use eterra_polkadot_sdk_solo.Prelude.Each.{All}
use eterra_polkadot_sdk_solo.Prelude.Results.{Result, ok, signed}
use eterra_polkadot_sdk_solo.Tcg.Types.{CardInfo, Pack, Error, Store, Env}
use eterra_polkadot_sdk_solo.Tcg.Cards.{
  create_new_card, create_cards, is_final, all_final, finalize, internal_finalize_card,
}
use eterra_polkadot_sdk_solo.Tcg.Packs.{
  mint_pack, last_pack, set_last, active, put_pack, put_values, generate_slot, accept_slot,
}
use eterra_polkadot_sdk_solo.Tcg.History.{
  genesis, History, start, mints, generates, accepts, History-first,
}
use eterra_polkadot_sdk_solo.Tcg.Again.{values, is_last, generate_slot-again}

abbrev env : Env
env = record {
  randomness_seed = 1;
  max_attempts = 3;
  cards_per_pack = 2;
  max_packs = 10;
  block_number = 7;
  slot_hash = λ block player seed. block ∷ player ∷ seed ∷ 4 ∷ [];
}

abbrev stored : Result Error Store → Store
stored (ok s) = s
stored _ = genesis

abbrev minted : Store
unfolding mint_pack create_cards create_new_card
minted = stored (mint_pack env (signed 1) genesis)

mints_pack : mint_pack env (signed 1) genesis ≡ ok minted
unfolding mint_pack create_cards create_new_card minted
mints_pack = refl

abbrev generated : Store
unfolding mint_pack create_cards create_new_card minted generate_slot active last_pack set_last
    put_pack put_values
generated = stored (generate_slot env (signed 1) minted)

generates_slot : generate_slot env (signed 1) minted ≡ ok generated
unfolding mint_pack create_cards create_new_card minted generate_slot active last_pack set_last
    put_pack put_values generated
generates_slot = refl

abbrev accepted : Store
unfolding mint_pack create_cards create_new_card minted generate_slot active last_pack set_last
    put_pack put_values generated accept_slot internal_finalize_card finalize all_final is_final
accepted = stored (accept_slot env (signed 1) generated)

accepts_slot : accept_slot env (signed 1) generated ≡ ok accepted
unfolding mint_pack create_cards create_new_card minted generate_slot active last_pack set_last
    put_pack put_values generated accept_slot internal_finalize_card finalize all_final is_final
    accepted
accepts_slot = refl

past : History 2 accepted
past =
    accepts
      (generates (mints start env (signed 1) refl (omega arith) mints_pack) env (signed 1)
        generates_slot)
      env (signed 1) accepts_slot

History-first_example :
    ((p : ℕ) → All (λ pack. pack.completed ≡ false) (accepted.player_packs p))
    × ((id : ℕ) (c : CardInfo) → accepted.cards id ≡ some c → c.finalized ≡ true → id % 2 ≡ 0)
    × ((p i : ℕ) → accepted.active_card p ≡ some i → i ≡ 0)
History-first_example = History-first (omega arith) past

abbrev pack : Pack
pack = record { id = 7; card_ids = 0 ∷ 1 ∷ []; active_card_index = 0; completed = false }

-- The card has been finalized, and is generated again.
abbrev card : CardInfo
card = record { owner = 1; finalized = true; slot_values = some (7 ∷ 1 ∷ 1 ∷ 4 ∷ []) }

is_active : active 1 accepted ≡ ok (pack, 0, card)
unfolding mint_pack create_cards create_new_card minted generate_slot active last_pack set_last
    put_pack put_values generated accept_slot internal_finalize_card finalize all_final is_final
    accepted
is_active = refl

no_attempts : accepted.card_attempts 0 ≡ 0
unfolding mint_pack create_cards create_new_card minted generate_slot active last_pack set_last
    put_pack put_values generated accept_slot internal_finalize_card finalize all_final is_final
    accepted
no_attempts = refl

generate_slot-again_example :
    (t : Store) × (generate_slot env (signed 1) accepted ≡ ok t)
    × (t.cards 0
        ≡ some (record card {
          slot_values = some (values env 1);
          finalized = if is_last env (accepted.card_attempts 0) then true else card.finalized;
        }))
    × (t.card_attempts 0
        ≡ (if is_last env (accepted.card_attempts 0) then 0 else accepted.card_attempts 0 + 1))
generate_slot-again_example =
    generate_slot-again env 1 accepted pack 0 card is_active (omega (arith, no_attempts))
