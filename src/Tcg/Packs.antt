-- ===== src/Tcg/Packs.antt =====
-- The calls of pallets/eterra-tcg/src/lib.rs.
use eterra_polkadot_sdk_solo.Prelude.{
  ℕ, ◌+◌, ◌==◌, ltb, if◌then◌else◌, is_some, false, Option, none, some, List, [], ◌∷◌, ◌++◌, length,
  get_elem?, update, u32_max,
}
use eterra_polkadot_sdk_solo.Prelude.Results.{
  Result, ok, Origin, ensure_signed, ensure, ok_or, ◌>>=◌, ◌>>◌,
}
use eterra_polkadot_sdk_solo.Tcg.Types.{
  CardInfo, Pack, pack_minted, slot_generated, slot_accepted, card_transferred, Error,
  max_attempts_exceeded, no_active_card, no_pack_found, max_packs_reached, no_such_card,
  not_card_owner, Store, Env,
}
use eterra_polkadot_sdk_solo.Tcg.Cards.{create_cards, internal_finalize_card}

-- `saturated_into::<u32>()`
abbrev pub saturated_into : ℕ → ℕ
saturated_into n = if ltb n u32_max then n else u32_max

unfoldable pub mint_pack : Env → Origin → Store → Result Error Store
unfolding create_cards
mint_pack env origin s = do
  player ← ensure_signed origin
  let packs = s.player_packs player
  ensure (ltb (length packs) env.max_packs) max_packs_reached
  let pack_id = saturated_into env.block_number
  made ← create_cards env.cards_per_pack player [] s
  let new_pack : Pack = record {
    id = pack_id;
    card_ids = made.0;
    active_card_index = 0;
    completed = false;
  }
  ok (record made.1 {
    player_packs = update made.1.player_packs player (packs ++ new_pack ∷ []);
    active_card = update made.1.active_card player (some 0);
    events = pack_minted player pack_id ∷ made.1.events;
  })

-- `packs.last_mut()`: the last pack, and the list with another one in its place.
unfoldable pub last_pack : List Pack → Option Pack
last_pack [] = none
last_pack (p ∷ []) = some p
last_pack (p ∷ q ∷ ps) = last_pack (q ∷ ps)

unfoldable pub set_last : List Pack → Pack → List Pack
set_last [] new = []
set_last (p ∷ []) new = new ∷ []
set_last (p ∷ q ∷ ps) new = p ∷ set_last (q ∷ ps) new

-- What `generate_slot` and `accept_slot` begin with: the last pack, and the id and the card of the
-- active index, which the player owns.
unfoldable pub active : ℕ → Store → Result Error (Pack × ℕ × CardInfo)
unfolding last_pack
active player s = do
  pack ← ok_or (last_pack (s.player_packs player)) no_pack_found
  active_card_idx ← ok_or (s.active_card player) no_active_card
  card_id ← ok_or (get_elem? pack.card_ids active_card_idx) no_active_card
  card_info ← ok_or (s.cards card_id) no_such_card
  ensure (card_info.owner == player) not_card_owner
  ok (pack, card_id, card_info)

unfoldable pub put_pack : ℕ → Pack → Store → Store
unfolding set_last
put_pack player pack s = record s {
  player_packs = update s.player_packs player (set_last (s.player_packs player) pack);
}

-- The new values and the new count of attempts.
unfoldable pub put_values : ℕ → CardInfo → List ℕ → Store → Store
put_values card_id card_info values s = record s {
  cards = update s.cards card_id (some (record card_info { slot_values = some values }));
  card_attempts = update s.card_attempts card_id (s.card_attempts card_id + 1);
}

unfoldable pub generate_slot : Env → Origin → Store → Result Error Store
unfolding active put_pack put_values internal_finalize_card
generate_slot env origin s = do
  player ← ensure_signed origin
  a ← active player s
  let attempts = s.card_attempts a.1
  ensure (ltb attempts env.max_attempts) max_attempts_exceeded
  let values = env.slot_hash env.block_number player env.randomness_seed
  let s1 = put_values a.1 a.2 values s
  let done =
      (if attempts + 1 == env.max_attempts then internal_finalize_card a.1 a.0 s1 else (a.0, s1))
  let s2 = put_pack player done.0 done.1
  ok (record s2 { events = slot_generated a.1 values ∷ s2.events })

unfoldable pub accept_slot : Env → Origin → Store → Result Error Store
unfolding active put_pack internal_finalize_card
accept_slot env origin s = do
  player ← ensure_signed origin
  a ← active player s
  ensure (is_some a.2.slot_values) no_active_card
  let done = internal_finalize_card a.1 a.0 s
  let s2 = put_pack player done.0 done.1
  ok (record s2 { events = slot_accepted a.1 ∷ s2.events })

unfoldable pub transfer_card : Origin → ℕ → ℕ → Store → Result Error Store
transfer_card origin card_id to s = do
  from ← ensure_signed origin
  card_info ← ok_or (s.cards card_id) no_such_card
  ensure (card_info.owner == from) not_card_owner
  ensure card_info.finalized no_active_card
  ok (record s {
    cards = update s.cards card_id (some (record card_info { owner = to }));
    events = card_transferred from to card_id ∷ s.events;
  })
