-- ===== src/SimpleTcg/History.antt =====
-- The histories of calls to pallets/eterra-simple-tcg/src/lib.rs, and what a sale does.
use eterra_polkadot_sdk_solo.Prelude.{
  ℕ, ◌+◌, ◌<◌, ◌≡◌, ◌≢◌, refl, sym, ap, subst, ◌∙◌, ◌==◌, if◌then◌else◌, true, false, none, some,
  is_some, [], arith, inl, inr, Option-cases, u32_mod,
}
use eterra_polkadot_sdk_solo.Prelude.Results.{Result, ok, ◌>>=◌, Origin, signed}
use eterra_polkadot_sdk_solo.Prelude.Ensures.{
  Ensures, ensure-eq-ok, ok_or-eq-ok, >>=-eq-ok, ok_injective,
}
use eterra_polkadot_sdk_solo.SimpleTcg.Types.{CardInfo}
use eterra_polkadot_sdk_solo.SimpleTcg.Store.{
  CardId, Store, Env, Error, no_such_card, not_card_owner, not_owner, not_for_sale, allow_death,
  deposit_event, put_card, put_owned, put_listed, put_price, push, pay, unlist, do_transfer,
}
use eterra_polkadot_sdk_solo.SimpleTcg.Calls.{
  mint_card, transfer_card, set_price, remove_price, buy_card,
}
use eterra_polkadot_sdk_solo.SimpleTcg.Counts.{count}
use eterra_polkadot_sdk_solo.SimpleTcg.Index.{Inv, owns}
use eterra_polkadot_sdk_solo.SimpleTcg.Safety.{
  mint_card-Ensures, transfer_card-Ensures, set_price-Ensures, remove_price-Ensures,
  buy_card-Ensures,
}

pub data Call : Type 0 where
  mints : Call
  transfers : CardId → ℕ → Call
  sets_price : CardId → ℕ → Call
  removes_price buys : CardId → Call

module _ {B : Type 0} where
  unfoldable pub dispatch : Env B → Origin → Call → Store B → Result Error (Store B)
  dispatch env origin mints s = mint_card env origin s
  dispatch env origin (transfers id to) s = transfer_card origin id to s
  dispatch env origin (sets_price id price) s = set_price origin id price s
  dispatch env origin (removes_price id) s = remove_price origin id s
  dispatch env origin (buys id) s = buy_card env origin id s

  unfoldable pub genesis : B → Store B
  genesis b = record {
    next_card_id = 0;
    cards = λ _. none;
    owned_cards = λ _. [];
    card_prices = λ _. none;
    listed_by_owner = λ _. [];
    events = [];
    balances = b;
  }

  -- The storages that calls lead to while ids are left: the next id is a `u32` that wraps. Other
  -- pallets change the balances in between.
  pub data Reach : Store B → Type 0 where
    start : (b : B) → Reach (genesis b)
    call :
        {s t : Store B}
        → Reach s
        → (env : Env B) (origin : Origin) (c : Call) (b : B) → s.next_card_id + 1 < u32_mod
        → dispatch env origin c (record s { balances = b }) ≡ ok t
        → Reach t

  pub dispatch-Ensures :
      (env : Env B) (origin : Origin) (c : Call) (s : Store B)
      → s.next_card_id + 1 < u32_mod
      → Inv s
      → Ensures Inv (dispatch env origin c s)
  unfolding dispatch
  dispatch-Ensures env origin mints s small v = mint_card-Ensures env origin s small v
  dispatch-Ensures env origin (transfers id to) s small v = transfer_card-Ensures origin id to s v
  dispatch-Ensures env origin (sets_price id price) s small v =
      set_price-Ensures origin id price s v
  dispatch-Ensures env origin (removes_price id) s small v = remove_price-Ensures origin id s v
  dispatch-Ensures env origin (buys id) s small v = buy_card-Ensures env origin id s v

  pub genesis-Inv : (b : B) → Inv (genesis b)
  unfolding genesis count owns
  genesis-Inv b = record {
    owned = λ a c. refl;
    listed = λ a c. refl;
    unpriced = λ c e. refl;
    fresh = λ c le. refl;
  }

  Reach-valid : {s : Store B} → Reach s → Inv s
  Reach-valid (start b) = genesis-Inv b
  Reach-valid (call {s = s} r env origin c b small e) =
      let v = Reach-valid r in
      subst (Ensures Inv) e (
        dispatch-Ensures env origin c (record s { balances = b }) small
          record { owned = v.owned; listed = v.listed; unpriced = v.unpriced; fresh = v.fresh })

  -- While card ids are left, in every storage that calls lead to, the list of an account holds
  -- each card that the account owns exactly once and no other card, and its list of offers holds
  -- exactly once each of them that has a price, and no other card.
  pub Reach-index :
      {s : Store B}
      → Reach s
      → (a : ℕ) (c : CardId)
      → (count c (s.owned_cards a) ≡ owns a (s.cards c))
        × (count c (s.listed_by_owner a)
            ≡ (if is_some (s.card_prices c) then owns a (s.cards c) else 0))
  Reach-index r a c = let v = Reach-valid r in (v.owned a c, v.listed a c)

  do_transfer-moves :
      (from to id : ℕ) (info : CardInfo) (s t : Store B)
      → s.cards id ≡ some info
      → do_transfer from to id s ≡ ok t
      → (t.cards id ≡ some (record info { owner = to }))
        × (t.card_prices ≡ s.card_prices)
        × (t.balances ≡ s.balances)
  unfolding do_transfer put_card put_owned
  do_transfer-moves from to id info s t has e =
      let (i, found, e1) = ok_or-eq-ok (s.cards id) no_such_card _ e in
      let (own, e2) = ensure-eq-ok (i.owner == from) not_card_owner _ e1 in
      let (list, pushed, e3) = >>=-eq-ok (push _ id) _ e2 in
      rw (sym (ok_injective e3)) (ground (arith, found, has), refl, refl)

  -- What a sale of card `id` to `buyer` has read and done.
  pub record Sold (env : Env B) (buyer : ℕ) (id : CardId) (s t : Store B) : Type 0 where
    pub price : ℕ
    pub info : CardInfo
    pub offered : s.card_prices id ≡ some price
    pub stored : s.cards id ≡ some info
    pub other : info.owner ≢ buyer
    pub paid : env.transfer buyer info.owner price allow_death s.balances ≡ some t.balances
    pub moved : t.cards id ≡ some (record info { owner = buyer })
    pub withdrawn : t.card_prices id ≡ none

  pay-eq-ok :
      (env : Env B) (from to amount : ℕ) (s : Store B) (f : Store B → Result Error (Store B))
      {t : Store B}
      → (pay env from to amount allow_death s >>= f) ≡ ok t
      → (b : B) × (env.transfer from to amount allow_death s.balances ≡ some b)
        × (f (record s { balances = b }) ≡ ok t)
  unfolding pay
  pay-eq-ok env from to amount s f e =
      elim (Option-cases (env.transfer from to amount allow_death s.balances)) [
        | inl failed ↦ absurd (ground (arith, e, failed))
        | inr (b, paid) ↦ (b, paid, ground (arith, e, paid))
      ]

  -- A sale that succeeds: the card had a price and another owner, exactly that price went from the
  -- buyer to that owner, the card now belongs to the buyer, and it is no longer for sale.
  pub buy_card-Sold :
      (env : Env B) (buyer : ℕ) (id : CardId) (s t : Store B)
      → buy_card env (signed buyer) id s ≡ ok t
      → Sold env buyer id s t
  unfolding buy_card deposit_event unlist put_price put_listed
  buy_card-Sold env buyer id s t e =
      let (price, offered, e1) = ok_or-eq-ok (s.card_prices id) not_for_sale _ e in
      let (info, stored, e2) = ok_or-eq-ok (s.cards id) no_such_card _ e1 in
      let (ne, e3) = ensure-eq-ok (if info.owner == buyer then false else true) not_owner _ e2 in
      let (b, paid, e4) = pay-eq-ok env buyer info.owner price s _ e3 in
      let (u, transferred, e5) =
        >>=-eq-ok
          (do_transfer info.owner buyer id (unlist id info.owner (record s { balances = b }))) _
          e4 in
      let (card, prices, balances) =
        do_transfer-moves info.owner buyer id info _ u stored transferred in
      rw (sym (ok_injective e5)) record {
        price = price;
        info = info;
        offered = offered;
        stored = stored;
        other = λ same. ground (arith, same, ne);
        paid = paid ∙ ap some (sym balances);
        moved = card;
        withdrawn = ap (λ f. f id) prices ∙ ground arith;
      }
