-- ===== src/Tcg/Calls.antt =====
-- The calls of pallets/eterra-tcg/src/lib.rs keep packs frozen.
use mathlib.Core.Option.{some-injective, none-ne-some}
use native.Mathlib.Nat.{add-mod_right}
use eterra_polkadot_sdk_solo.Prelude.{
  ℕ, ◌+◌, ◌≤◌, ◌<◌, ◌≡◌, refl, sym, ap, ◌∙◌, subst, ◌==◌, false, some, List, [], ◌∷◌, ◌++◌,
  get_elem?, update, arith, u32_mod,
}
use eterra_polkadot_sdk_solo.Prelude.Maps.{update-cases}
use eterra_polkadot_sdk_solo.Prelude.Each.{All, All-append}
use eterra_polkadot_sdk_solo.Prelude.Results.{ok, Origin}
use eterra_polkadot_sdk_solo.Prelude.Ensures.{
  signed-eq-ok, ensure-eq-ok, ok_or-eq-ok, >>=-eq-ok, ok_injective,
}
use eterra_polkadot_sdk_solo.Tcg.Types.{
  CardInfo, Pack, no_pack_found, no_active_card, no_such_card, not_card_owner, Store, Env,
}
use eterra_polkadot_sdk_solo.Tcg.Cards.{create_cards}
use eterra_polkadot_sdk_solo.Tcg.Packs.{saturated_into, mint_pack, last_pack, set_last, active}
use eterra_polkadot_sdk_solo.Tcg.Frozen.{IsFrozen, Frozen, Made, create_cards-Made}

pub All-weaken :
    (P Q : Pack → Type 0) (l : List Pack) → ((p : Pack) → P p → Q p) → All P l → All Q l
All-weaken P Q [] f v = v
All-weaken P Q (p ∷ l) f (a, v) = (f p a, All-weaken P Q l f v)

IsFrozen-later : (k n n' : ℕ) (p : Pack) → n ≤ n' → IsFrozen k n p → IsFrozen k n' p
IsFrozen-later k n n' p le f = record {
  base = f.base;
  aligned = f.aligned;
  minted = omega (arith, f.minted, le);
  ids = f.ids;
  open_ = f.open_;
}

-- What a mint that succeeds has done.
record Minted (k : ℕ) (s t : Store) : Type 0 where
  player : ℕ
  card_ids : List ℕ
  id : ℕ
  middle : Store
  made : Made k k [] s (card_ids, middle)
  next : t.next_card_id ≡ middle.next_card_id
  cards : t.cards ≡ middle.cards
  packs :
      t.player_packs
      ≡ update middle.player_packs player (
          s.player_packs player
          ++ (record { id = id; card_ids = card_ids; active_card_index = 0; completed = false })
            ∷ [])
  active_card : t.active_card ≡ update middle.active_card player (some 0)

mint_pack-Minted :
    (k : ℕ) (env : Env) (origin : Origin) (s t : Store)
    → env.cards_per_pack ≡ k
    → s.next_card_id + k < u32_mod
    → mint_pack env origin s ≡ ok t
    → Minted k s t
unfolding mint_pack
mint_pack-Minted k env origin s t same small e =
    let (player, is, e1) = signed-eq-ok origin _ e in
    let (room, e2) = ensure-eq-ok _ _ _ e1 in
    let (r, made, e3) = >>=-eq-ok (create_cards env.cards_per_pack player [] s) _ e2 in
    let q = sym (ok_injective e3) in
    record {
      player = player;
      card_ids = r.0;
      id = saturated_into env.block_number;
      middle = r.1;
      made =
          create_cards-Made k k player [] s r small
            (subst (λ n. create_cards n player [] s ≡ ok r) same made);
      next = ap (λ z. z.next_card_id) q;
      cards = ap (λ z. z.cards) q;
      packs = ap (λ z. z.player_packs) q;
      active_card = ap (λ z. z.active_card) q;
    }

pub mint_pack-Frozen :
    (k : ℕ) (env : Env) (origin : Origin) (s t : Store)
    → env.cards_per_pack ≡ k
    → s.next_card_id + k < u32_mod
    → Frozen k s
    → mint_pack env origin s ≡ ok t
    → Frozen k t
mint_pack-Frozen k env origin s t same small v e =
    let r = mint_pack-Minted k env origin s t same small e in
    let next : t.next_card_id ≡ s.next_card_id + k = r.next ∙ r.made.next in
    record {
      aligned = rw next (add-mod_right s.next_card_id k ∙ v.aligned);
      exist = rw (next, r.cards) (r.made.exist v.exist);
      heads = rw r.cards (r.made.heads v.heads);
      active = λ p i.
          rw (r.active_card, r.made.active)
            (update-cases (λ o. o ≡ some i → i ≡ 0) s.active_card r.player (some 0) p
              (λ own q. sym (some-injective 0 i q)) (λ other. v.active p i));
      packs = λ p.
          rw (next, r.packs, r.made.packs)
            (update-cases (λ l. All (IsFrozen k (s.next_card_id + k)) l) s.player_packs r.player _ p
              (λ own.
                All-append (IsFrozen k (s.next_card_id + k)) _ (s.player_packs r.player)
                  (record {
                    base = s.next_card_id;
                    aligned = v.aligned;
                    minted = omega arith;
                    ids = r.made.ids_after;
                    open_ = refl;
                  })
                  (grown r.player))
              (λ other. grown p));
    }
  where
    grown : (p : ℕ) → All (IsFrozen k (s.next_card_id + k)) (s.player_packs p)
    grown p =
        All-weaken (IsFrozen k s.next_card_id) (IsFrozen k (s.next_card_id + k)) (s.player_packs p)
          (λ q f. IsFrozen-later k s.next_card_id (s.next_card_id + k) q (omega arith) f)
          (v.packs p)

pub last_pack-All :
    (P : Pack → Type 0) (l : List Pack) (p : Pack) → All P l → last_pack l ≡ some p → P p
unfolding last_pack
last_pack-All P [] p v e = absurd (none-ne-some p e)
last_pack-All P (q ∷ []) p v e = subst P (some-injective q p e) v.0
last_pack-All P (q ∷ r ∷ l) p v e = last_pack-All P (r ∷ l) p v.1 e

pub set_last-last_pack : (l : List Pack) (p : Pack) → last_pack l ≡ some p → set_last l p ≡ l
unfolding last_pack set_last
set_last-last_pack [] p e = refl
set_last-last_pack (q ∷ []) p e = ap (λ z. z ∷ []) (sym (some-injective q p e))
set_last-last_pack (q ∷ r ∷ l) p e = ap (λ z. q ∷ z) (set_last-last_pack (r ∷ l) p e)

-- What `active` has found.
pub record Found (player : ℕ) (s : Store) (a : Pack × ℕ × CardInfo) : Type 0 where
  pub last : last_pack (s.player_packs player) ≡ some a.0
  pub idx : ℕ
  pub chosen : s.active_card player ≡ some idx
  pub listed : get_elem? a.0.card_ids idx ≡ some a.1
  pub stored : s.cards a.1 ≡ some a.2

pub active-Found :
    (player : ℕ) (s : Store) (a : Pack × ℕ × CardInfo) → active player s ≡ ok a → Found player s a
unfolding active
active-Found player s a e =
    let (pack, last, e1) = ok_or-eq-ok (last_pack (s.player_packs player)) no_pack_found _ e in
    let (idx, chosen, e2) = ok_or-eq-ok (s.active_card player) no_active_card _ e1 in
    let (card_id, listed, e3) = ok_or-eq-ok (get_elem? pack.card_ids idx) no_active_card _ e2 in
    let (card_info, stored, e4) = ok_or-eq-ok (s.cards card_id) no_such_card _ e3 in
    let (owned, e5) = ensure-eq-ok (card_info.owner == player) not_card_owner _ e4 in
    subst (Found player s) (ok_injective e5)
      (record { last = last; idx = idx; chosen = chosen; listed = listed; stored = stored })
