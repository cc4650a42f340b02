-- ===== src/Tcg/History.antt =====
-- Histories of calls of pallets/eterra-tcg/src/lib.rs: which cards are ever finalized.
use native.Mathlib.Nat.{zero-mod}
use eterra_polkadot_sdk_solo.Prelude.{
  ℕ, ◌+◌, ◌%◌, ◌≤◌, ◌<◌, ◌≡◌, true, false, none, some, [], arith, u32_mod,
}
use eterra_polkadot_sdk_solo.Prelude.Each.{All}
use eterra_polkadot_sdk_solo.Prelude.Results.{ok, Origin}
use eterra_polkadot_sdk_solo.Tcg.Types.{CardInfo, Store, Env}
use eterra_polkadot_sdk_solo.Tcg.Packs.{mint_pack, generate_slot, accept_slot, transfer_card}
use eterra_polkadot_sdk_solo.Tcg.Frozen.{IsFrozen, Frozen}
use eterra_polkadot_sdk_solo.Tcg.Calls.{All-weaken, mint_pack-Frozen}
use eterra_polkadot_sdk_solo.Tcg.Steps.{
  generate_slot-Frozen, accept_slot-Frozen, transfer_card-Frozen,
}

abbrev pub genesis : Store
genesis = record {
  next_card_id = 0;
  cards = λ _. none;
  player_packs = λ _. [];
  active_card = λ _. none;
  card_attempts = λ _. 0;
  events = [];
}

-- The storages that calls lead to, with packs of `k` cards, before the ids run out.
pub data History (k : ℕ) : Store → Type 0 where
  start : History k genesis
  mints :
      {s t : Store}
      → History k s
      → (env : Env) (origin : Origin) → env.cards_per_pack ≡ k
      → s.next_card_id + k < u32_mod
      → mint_pack env origin s ≡ ok t
      → History k t
  generates :
      {s t : Store}
      → History k s
      → (env : Env) (origin : Origin) → generate_slot env origin s ≡ ok t
      → History k t
  accepts :
      {s t : Store}
      → History k s
      → (env : Env) (origin : Origin) → accept_slot env origin s ≡ ok t
      → History k t
  transfers :
      {s t : Store}
      → History k s
      → (origin : Origin) (id to : ℕ) → transfer_card origin id to s ≡ ok t
      → History k t

pub History-Frozen : {k : ℕ} {s : Store} → 2 ≤ k → History k s → Frozen k s
History-Frozen {k = k} two start = record {
  aligned = zero-mod k;
  exist = λ id lt. absurd (omega (arith, lt));
  heads = λ id c e f. cc;
  active = λ p i e. cc;
  packs = λ p. tt;
}
History-Frozen {k = k} two (mints {s = s} {t = t} past env origin same small e) =
    mint_pack-Frozen k env origin s t same small (History-Frozen two past) e
History-Frozen {k = k} two (generates {s = s} {t = t} past env origin e) =
    generate_slot-Frozen k two env origin s t (History-Frozen two past) e
History-Frozen {k = k} two (accepts {s = s} {t = t} past env origin e) =
    accept_slot-Frozen k two env origin s t (History-Frozen two past) e
History-Frozen {k = k} two (transfers {s = s} {t = t} past origin id to e) =
    transfer_card-Frozen k two origin id to s t (History-Frozen two past) e

-- With packs of two cards or more, after any history of calls before the card ids run out: no pack is
-- completed, every finalized card is the first of its pack (its id is a multiple of the size of the
-- packs), and the active index of a player is 0 or not set.
pub History-first :
    {k : ℕ} {s : Store}
    → 2 ≤ k
    → History k s
    → ((p : ℕ) → All (λ pack. pack.completed ≡ false) (s.player_packs p))
      × ((id : ℕ) (c : CardInfo) → s.cards id ≡ some c → c.finalized ≡ true → id % k ≡ 0)
      × ((p i : ℕ) → s.active_card p ≡ some i → i ≡ 0)
History-first {k = k} {s = s} two past =
    let v = History-Frozen two past in
    (
      λ p.
          All-weaken (IsFrozen k s.next_card_id) (λ pack. pack.completed ≡ false) (s.player_packs p)
            (λ q f. f.open_) (v.packs p),
      v.heads,
      v.active,
    )
