-- ===== src/SimpleTcg/Index.antt =====
-- The indices of pallets/eterra-simple-tcg/src/lib.rs agree with the cards: the list of an account holds
-- the cards it owns, each once, and its list of offers those of them that have a price.
use eterra_polkadot_sdk_solo.Prelude.{
  ℕ, ◌+◌, ◌%◌, ◌≤◌, ◌<◌, ◌≡◌, ◌==◌, if◌then◌else◌, true, false, Option, none, some, is_some, [],
  ◌∷◌, ◌++◌, contains, arith, u32_mod,
}
use eterra_polkadot_sdk_solo.SimpleTcg.Types.{CardInfo}
use eterra_polkadot_sdk_solo.SimpleTcg.Store.{
  CardId, Store, Event, deposit_event, put_card, put_owned, put_listed, put_price, swap_remove,
  unlist,
}
use eterra_polkadot_sdk_solo.SimpleTcg.Counts.{
  count, count-append, count-contains, contains-count, count-swap_remove,
}

unfoldable pub owns : ℕ → Option CardInfo → ℕ
owns a none = 0
owns a (some info) = if info.owner == a then 1 else 0

module _ {B : Type 0} where
  pub record Inv (s : Store B) : Type 0 where
    pub owned : (a c : ℕ) → count c (s.owned_cards a) ≡ owns a (s.cards c)
    pub listed :
        (a c : ℕ)
        → count c (s.listed_by_owner a)
          ≡ (if is_some (s.card_prices c) then owns a (s.cards c) else 0)
    pub unpriced : (c : CardId) → s.cards c ≡ none → s.card_prices c ≡ none
    pub fresh : (c : CardId) → s.next_card_id ≤ c → s.cards c ≡ none

  pub event-Inv : (e : Event) (s : Store B) → Inv s → Inv (deposit_event e s)
  unfolding deposit_event
  event-Inv e s v = record {
    owned = v.owned;
    listed = v.listed;
    unpriced = v.unpriced;
    fresh = v.fresh;
  }

  pub unlist-Inv :
      (id owner : ℕ) (info : CardInfo) (s : Store B)
      → s.cards id ≡ some info
      → info.owner ≡ owner
      → Inv s
      → Inv (unlist id owner s)
  unfolding unlist put_price put_listed deposit_event owns
  unlist-Inv id owner info s e own v = record {
    owned = v.owned;
    listed = λ a c.
        ground (arith, v.listed a c, count-swap_remove c id (s.listed_by_owner owner), e, own);
    unpriced = λ c q. ground (arith, v.unpriced c);
    fresh = v.fresh;
  }

  pub unlisted : (id owner : ℕ) (s : Store B) → (unlist id owner s).card_prices id ≡ none
  unfolding unlist put_price put_listed deposit_event
  unlisted id owner s = ground arith

  -- The card `id` goes from one account to another, in the cards and in both lists.
  pub moved-Inv :
      (from to id : ℕ) (info : CardInfo) (s : Store B)
      → s.cards id ≡ some info
      → (info.owner == from) ≡ true
      → s.card_prices id ≡ none
      → Inv s
      → let s1 = put_card id (record info { owner = to }) s in
        let s2 = put_owned from (swap_remove (s1.owned_cards from) id) s1 in
        Inv (put_owned to (s2.owned_cards to ++ id ∷ []) s2)
  unfolding put_card put_owned owns
  moved-Inv from to id info s e own free v = record {
    owned = λ a c. ground (
      arith,
      v.owned a c,
      v.owned from c,
      v.owned to c,
      e,
      own,
      count-swap_remove c id (s.owned_cards from),
      count-append c id (s.owned_cards to),
      count-append c id (swap_remove (s.owned_cards from) id),
    );
    listed = λ a c. ground (arith, v.listed a c, free);
    unpriced = λ c q. ground (arith, v.unpriced c, free);
    fresh = λ c le. ground (arith, v.fresh c le);
  }

  pub with_balances : (b : B) (s : Store B) → Inv s → Inv (record s { balances = b })
  with_balances b s v = record {
    owned = v.owned;
    listed = v.listed;
    unpriced = v.unpriced;
    fresh = v.fresh;
  }

  -- A new card under the next id.
  pub minted-Inv :
      (id owner : ℕ) (info : CardInfo) (s : Store B)
      → s.next_card_id ≡ id
      → id + 1 < u32_mod
      → info.owner ≡ owner
      → Inv s
      → let s1 = put_card id info s in
        Inv (record (put_owned owner (s1.owned_cards owner ++ id ∷ []) s1) {
          next_card_id = (id + 1) % u32_mod;
        })
  unfolding put_card put_owned owns
  minted-Inv id owner info s next small own v = record {
    owned = λ a c.
        ground (arith, v.owned a c, v.fresh id, own, count-append c id (s.owned_cards owner));
    listed = λ a c. ground (arith, v.listed a c, v.fresh id, v.unpriced id, own);
    unpriced = λ c q. ground (arith, v.unpriced c);
    fresh = λ c le. ground (arith, v.fresh c);
  }

  -- A card that is put up for sale by its owner.
  pub priced-Inv :
      (who id price : ℕ) (info : CardInfo) (s : Store B)
      → s.cards id ≡ some info
      → (info.owner == who) ≡ true
      → contains (s.listed_by_owner who) id ≡ true
      → Inv s
      → Inv (put_price id (some price) s)
  unfolding put_price owns
  priced-Inv who id price info s e own has v = record {
    owned = v.owned;
    listed = λ a c. ground (
      arith,
      v.listed a c,
      e,
      own,
      v.listed who id,
      contains-count id (s.listed_by_owner who) has,
    );
    unpriced = λ c q. ground (arith, v.unpriced c, e);
    fresh = v.fresh;
  }

  pub priced_first-Inv :
      (who id price : ℕ) (info : CardInfo) (s : Store B)
      → s.cards id ≡ some info
      → (info.owner == who) ≡ true
      → contains (s.listed_by_owner who) id ≡ false
      → Inv s
      → Inv (put_listed who (s.listed_by_owner who ++ id ∷ []) (put_price id (some price) s))
  unfolding put_price put_listed owns
  priced_first-Inv who id price info s e own has v = record {
    owned = v.owned;
    listed = λ a c. ground (
      arith,
      v.listed a c,
      e,
      own,
      v.listed who id,
      count-contains id (s.listed_by_owner who) has,
      count-append c id (s.listed_by_owner who),
    );
    unpriced = λ c q. ground (arith, v.unpriced c, e);
    fresh = v.fresh;
  }
