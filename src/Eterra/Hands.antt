-- ===== src/Eterra/Hands.antt =====
-- Hands in pallets/eterra/src/lib.rs: `set_current_hand`, `set_preset_hand`, `submit_hand`, and the
-- two generators of the AI's hand.
use eterra_polkadot_sdk_solo.Prelude.{
  ℕ, zero, suc, ◌+◌, ◌-◌, ◌*◌, ◌/◌, ◌%◌, ◌==◌, leb, ltb, if◌then◌else◌, true, false, Option, none,
  some, is_some, List, [], ◌∷◌, ◌++◌, length, get_elem?, contains, update, saturating_add, u8_max,
}
use eterra_polkadot_sdk_solo.Prelude.Results.{
  Result, ok, Origin, ensure_signed, ensure, ok_or, ◌>>=◌, ◌>>◌,
}
use eterra_polkadot_sdk_solo.SimpleTcg.Types.{CardInfo}
use eterra_polkadot_sdk_solo.Eterra.Types.{
  AccountId, GameId, HandEntry, hand_submitted, Error, game_not_found, player_not_in_game,
  hand_already_submitted, preset_hand_missing, hand_size_invalid, duplicate_card_in_hand,
  card_does_not_exist, card_not_owned,
}
use eterra_polkadot_sdk_solo.Eterra.Store.{
  Digest, as_ref, Store, Env, hand_limit, deposit_event, is_pve,
}
use eterra_polkadot_sdk_solo.Eterra.Ai.{put_hand, let_ai_play}

-- The inner and the outer loop that look for a card that is listed twice.
unfoldable pub ensure_new : ℕ → List ℕ → Result Error (Unit {0})
ensure_new id [] = ok tt
ensure_new id (j ∷ ids) =
    ensure (if id == j then false else true) duplicate_card_in_hand >> ensure_new id ids

unfoldable pub ensure_distinct : List ℕ → Result Error (Unit {0})
unfolding ensure_new
ensure_distinct [] = ok tt
ensure_distinct (id ∷ ids) = ensure_new id ids >> ensure_distinct ids

-- One card of the list: it exists, and the caller owns it.
unfoldable pub owned_card : Env → AccountId → ℕ → Result Error CardInfo
owned_card env who id = do
  info ← ok_or (env.cards id) card_does_not_exist
  ensure (info.owner == who) card_not_owned
  ok info

unfoldable pub ensure_owned : Env → AccountId → List ℕ → Result Error (Unit {0})
unfolding owned_card
ensure_owned env who [] = ok tt
ensure_owned env who (id ∷ ids) = do owned_card env who id >>= λ _. ensure_owned env who ids

unfoldable pub set_current_hand : Env → Origin → List ℕ → Store → Result Error Store
set_current_hand env origin ids s = do
  who ← ensure_signed origin
  ensure (length ids == env.hand_size) hand_size_invalid
  ensure_distinct ids
  ensure_owned env who ids
  ensure (leb (length ids) hand_limit) hand_size_invalid
  ok (record s { current_hand_of = update s.current_hand_of who (some ids) })

unfoldable pub set_preset_hand : Env → Origin → List ℕ → Store → Result Error Store
unfolding set_current_hand
set_preset_hand env origin ids s = set_current_hand env origin ids s

unfoldable pub entry_of : ℕ → CardInfo → HandEntry
entry_of id info = record {
  card_id = id;
  north = info.north;
  east = info.east;
  south = info.south;
  west = info.west;
  used = false;
}

-- The loop of `submit_hand`, with `try_push` on the bounded hand.
unfoldable pub build_hand :
    Env → AccountId → List ℕ → List HandEntry → Result Error (List HandEntry)
unfolding owned_card entry_of
build_hand env who [] hand = ok hand
build_hand env who (id ∷ ids) hand = do
  info ← owned_card env who id
  ensure (ltb (length hand) hand_limit) hand_size_invalid
  build_hand env who ids (hand ++ entry_of id info ∷ [])

-- `bytes.get(i % bytes.len())`, and `bytes[at % bytes.len()]`.
abbrev pub byte_at : Digest → ℕ → ℕ
byte_at bytes i = elim (get_elem? (as_ref bytes) (i % length (as_ref bytes))) [
  | none ↦ 0
  | some b ↦ b
]

-- `next` of `generate_ai_hand_default`: 0..=255 to 1..=9.
unfoldable pub next_rank : Digest → ℕ → ℕ
next_rank bytes at = saturating_add u8_max (byte_at bytes at % 9) 1

unfoldable pub default_entries : Digest → ℕ → ℕ → List HandEntry
unfolding next_rank
default_entries bytes zero at = []
default_entries bytes (suc n) at =
    record {
      card_id = 0;
      north = next_rank bytes at;
      east = next_rank bytes (at + 1);
      south = next_rank bytes (at + 2);
      west = next_rank bytes (at + 3);
      used = false;
    }
    ∷ default_entries bytes n (at + 4)

unfoldable pub generate_ai_hand_default : Env → GameId → Option (List HandEntry)
unfolding default_entries
generate_ai_hand_default env id =
    let bytes = env.game_bytes id in
    if length (as_ref bytes) == 0 then none else some (default_entries bytes hand_limit 0)

abbrev pub rank_sum : List HandEntry → ℕ
rank_sum [] = 0
rank_sum (h ∷ hand) = h.north + h.east + h.south + h.west + rank_sum hand

-- The floats of `generate_ai_hand_for_game` in units of 1 / (8 n), for a hand of n cards: `avg` and
-- `target` are multiples of that, below 256, and `f32` keeps their order with the halves that the
-- code compares them with. `n` is 1 for an empty hand, where the quotient is NaN and `max` gives 1.
unfoldable pub half_unit : List HandEntry → ℕ
half_unit hand = 4 * (if length hand == 0 then 1 else length hand)

unfoldable pub target : List HandEntry → ℕ
unfolding half_unit
target hand =
    let u = half_unit hand in
    let lowered = 2 * rank_sum hand - u in if ltb lowered (2 * u) then 2 * u else lowered

-- `(byte as i8 % 3) - 1`, raised by 3: the remainder of a negative `i8` is negative.
unfoldable pub raised_jitter : ℕ → ℕ
raised_jitter b = if ltb b 128 then b % 3 + 2 else 2 - (256 - b) % 3

unfoldable pub clamp : ℕ → ℕ → ℕ → ℕ
clamp lo hi n = if ltb n lo then lo else if ltb hi n then hi else n

unfoldable pub mk_val : List HandEntry → Digest → ℕ → ℕ
unfolding target half_unit raised_jitter clamp
mk_val hand bytes i =
    let u = half_unit hand in
    let one = 2 * u in
    let base =
      clamp one (9 * one) (target hand + raised_jitter (byte_at bytes i) * one - 3 * one) in
    clamp 1 9 (if leb u (base % one) then base / one + 1 else base / one)

unfoldable pub adapted_entries : List HandEntry → Digest → ℕ → ℕ → List HandEntry
unfolding mk_val
adapted_entries hand bytes zero i = []
adapted_entries hand bytes (suc n) i =
    record {
      card_id = 0;
      north = mk_val hand bytes i;
      east = mk_val hand bytes (i + 1);
      south = mk_val hand bytes (i + 2);
      west = mk_val hand bytes (i + 3);
      used = false;
    }
    ∷ adapted_entries hand bytes n (i + 1)

unfoldable pub generate_ai_hand_for_game :
    Env → GameId → AccountId → Store → Option (List HandEntry)
unfolding adapted_entries
generate_ai_hand_for_game env id human s = elim (s.hands_of_game id human) [
  | none ↦ none
  | some hand ↦ some (adapted_entries hand (env.game_account_bytes id human) hand_limit 0)
]

-- The AI's hand, where it has none yet and one could be made.
unfoldable pub add_ai_hand : Env → GameId → Option (List HandEntry) → Store → Store
unfolding put_hand
add_ai_hand env id made s =
    if is_some (s.hands_of_game id env.ai_account)
    then s
    else elim made [ none ↦ s | some hand ↦ put_hand id env.ai_account hand s ]

unfoldable pub submit_hand : Env → Origin → GameId → List ℕ → Store → Result Error Store
unfolding put_hand deposit_event add_ai_hand
submit_hand env origin id card_ids s = do
  who ← ensure_signed origin
  game ← ok_or (s.game_storage id) game_not_found
  ensure (contains game.players who) player_not_in_game
  ensure (if is_some (s.hands_of_game id who) then false else true) hand_already_submitted
  current_ids ← ok_or (s.current_hand_of who) preset_hand_missing
  ensure (length current_ids == env.hand_size) hand_size_invalid
  ensure_distinct current_ids
  hand ← build_hand env who current_ids []
  let s1 = deposit_event (hand_submitted id who) (put_hand id who hand s)
  if is_pve (s1.game_modes id)
      then let_ai_play env id (add_ai_hand env id (generate_ai_hand_for_game env id who s1) s1)
      else ok s1
