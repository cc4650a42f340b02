-- ===== src/SimpleTcg/Safety.antt =====
-- The dispatchables of pallets/eterra-simple-tcg/src/lib.rs keep the indices in agreement with the cards,
-- over every history of calls.
use eterra_polkadot_sdk_solo.Prelude.{
  ℕ, ◌+◌, ◌<◌, ◌≡◌, refl, sym, subst, ◌==◌, if◌then◌else◌, true, false, none, some, is_some, List,
  [], ◌∷◌, ◌++◌, contains, arith, inl, inr, Bool-cases, Option-cases, u32_mod,
}
use eterra_polkadot_sdk_solo.Prelude.Results.{Result, ◌>>=◌, Origin}
use eterra_polkadot_sdk_solo.Prelude.Ensures.{
  Ensures, Ensures-bind, ensure-bind, ok_or-bind, signed-bind,
}
use eterra_polkadot_sdk_solo.SimpleTcg.Types.{CardInfo}
use eterra_polkadot_sdk_solo.SimpleTcg.Store.{
  CardId, Store, Env, Error, no_such_card, not_card_owner, not_owner, not_for_sale, keep_alive,
  allow_death, ExistenceRequirement, put_price, push, new_card_info, pay, check_name,
  create_new_card, unlist, do_transfer,
}
use eterra_polkadot_sdk_solo.SimpleTcg.Calls.{
  mint_card, transfer_card, add_listed, set_price, remove_price, buy_card,
}
use eterra_polkadot_sdk_solo.SimpleTcg.Index.{
  Inv, event-Inv, unlist-Inv, unlisted, moved-Inv, with_balances, minted-Inv, priced-Inv,
  priced_first-Inv,
}

push_lem : (l : List CardId) (id : CardId) → Ensures (λ r. r ≡ l ++ id ∷ []) (push l id)
unfolding push
push_lem l id = ground arith

eq_of : (a b : ℕ) → (a == b) ≡ true → a ≡ b
eq_of a b e = ground (arith, e)

push-bind {κ} :
    {C : Type κ} (Q : C → Type 0) (l : List CardId) (id : CardId) (f : List CardId → Result Error C)
    → Ensures Q (f (l ++ id ∷ []))
    → Ensures Q (push l id >>= f)
push-bind Q l id f h =
    Ensures-bind (λ r. r ≡ l ++ id ∷ []) Q (push l id) f (push_lem l id)
      λ r e. subst (λ q. Ensures Q (f q)) (sym e) h

module _ {B : Type 0} where
  do_transfer-Ensures :
      (from to id : ℕ) (s : Store B)
      → s.card_prices id ≡ none
      → Inv s
      → Ensures Inv (do_transfer from to id s)
  unfolding do_transfer
  do_transfer-Ensures from to id s free v = ok_or-bind Inv (s.cards id) no_such_card _ λ info e.
      ensure-bind Inv (info.owner == from) not_card_owner _
        λ own. push-bind Inv _ id _ (moved-Inv from to id info s e own free v)

  -- A payment changes the balances alone.
  pay-bind {κ} :
      {C : Type κ} (Q : C → Type 0) (env : Env B) (from to amount : ℕ) (r : ExistenceRequirement)
      (s : Store B) (f : Store B → Result Error C)
      → ((b : B) → Ensures Q (f (record s { balances = b })))
      → Ensures Q (pay env from to amount r s >>= f)
  unfolding pay
  pay-bind Q env from to amount r s f h =
      elim (Option-cases (env.transfer from to amount r s.balances)) [
        | inl failed ↦ rw (failed, pay) tt
        | inr (b, paid) ↦ rw (paid, pay) (h b)
      ]

  check_name-Ensures : (env : Env B) (id : CardId) → Ensures (λ _. Unit {0}) (check_name env id)
  unfolding check_name
  check_name-Ensures env id = ground arith

  create_new_card-Ensures :
      (env : Env B) (owner : ℕ) (s : Store B)
      → s.next_card_id + 1 < u32_mod
      → Inv s
      → Ensures (λ r. Inv r.1) (create_new_card env owner s)
  unfolding create_new_card new_card_info
  create_new_card-Ensures env owner s small v =
      pay-bind (λ r. Inv r.1) env owner env.faucet_account env.mint_fee keep_alive s _
        λ b.
          Ensures-bind (λ _. Unit {0}) (λ r. Inv r.1) _ _ (check_name-Ensures env s.next_card_id)
            λ _ _.
              push-bind (λ r. Inv r.1) _ s.next_card_id _
                (minted-Inv s.next_card_id owner (new_card_info env owner s.next_card_id)
                  (record s { balances = b }) refl small refl (with_balances b s v))

  pub mint_card-Ensures :
      (env : Env B) (origin : Origin) (s : Store B)
      → s.next_card_id + 1 < u32_mod
      → Inv s
      → Ensures Inv (mint_card env origin s)
  unfolding mint_card
  mint_card-Ensures env origin s small v = signed-bind Inv origin _ λ who _.
      Ensures-bind (λ r. Inv r.1) Inv (create_new_card env who s) _
        (create_new_card-Ensures env who s small v) λ r i. event-Inv _ _ i

  pub transfer_card-Ensures :
      (origin : Origin) (id to : ℕ) (s : Store B)
      → Inv s
      → Ensures Inv (transfer_card origin id to s)
  unfolding transfer_card
  transfer_card-Ensures origin id to s v = signed-bind Inv origin _ λ from _.
      ok_or-bind Inv (s.cards id) no_such_card _ λ info e.
        ensure-bind Inv (info.owner == from) not_card_owner _ λ own.
          elim (Bool-cases (is_some (s.card_prices id))) [
            | inl priced ↦ rw priced (
                Ensures-bind Inv Inv (do_transfer from to id (unlist id from s)) _
                  (do_transfer-Ensures from to id (unlist id from s) (unlisted id from s)
                    (unlist-Inv id from info s e (eq_of _ _ own) v))
                  λ t i. event-Inv _ _ i)
            | inr free ↦ rw free (
                Ensures-bind Inv Inv (do_transfer from to id s) _
                  (do_transfer-Ensures from to id s (ground (arith, free)) v)
                  λ t i. event-Inv _ _ i)
          ]

  add_listed-Ensures :
      (who id price : ℕ) (info : CardInfo) (s : Store B)
      → s.cards id ≡ some info
      → (info.owner == who) ≡ true
      → Inv s
      → Ensures Inv (add_listed who id (put_price id (some price) s))
  unfolding add_listed put_price
  add_listed-Ensures who id price info s e own v =
      elim (Bool-cases (contains (s.listed_by_owner who) id)) [
        | inl has ↦ rw has (unfold put_price in priced-Inv who id price info s e own has v)
        | inr not_yet ↦ rw not_yet (
            push-bind Inv (s.listed_by_owner who) id _
              (priced_first-Inv who id price info s e own not_yet v))
      ]

  pub set_price-Ensures :
      (origin : Origin) (id price : ℕ) (s : Store B)
      → Inv s
      → Ensures Inv (set_price origin id price s)
  unfolding set_price
  set_price-Ensures origin id price s v = signed-bind Inv origin _ λ who _.
      ok_or-bind Inv (s.cards id) no_such_card _ λ info e.
        ensure-bind Inv (info.owner == who) not_owner _ λ own.
          Ensures-bind Inv Inv (add_listed who id (put_price id (some price) s)) _
            (add_listed-Ensures who id price info s e own v) λ t i. event-Inv _ _ i

  pub remove_price-Ensures :
      (origin : Origin) (id : ℕ) (s : Store B) → Inv s → Ensures Inv (remove_price origin id s)
  unfolding remove_price
  remove_price-Ensures origin id s v = signed-bind Inv origin _ λ who _.
      ok_or-bind Inv (s.cards id) no_such_card _ λ info e.
        ensure-bind Inv (info.owner == who) not_owner _ λ own.
          ensure-bind Inv (is_some (s.card_prices id)) not_for_sale _
            λ _. unlist-Inv id who info s e (eq_of _ _ own) v

  pub buy_card-Ensures :
      (env : Env B) (origin : Origin) (id : ℕ) (s : Store B)
      → Inv s
      → Ensures Inv (buy_card env origin id s)
  unfolding buy_card
  buy_card-Ensures env origin id s v = signed-bind Inv origin _ λ buyer _.
      ok_or-bind Inv (s.card_prices id) not_for_sale _ λ price p.
        ok_or-bind Inv (s.cards id) no_such_card _ λ info e.
          ensure-bind Inv (if info.owner == buyer then false else true) not_owner _ λ other.
            pay-bind Inv env buyer info.owner price allow_death s _ λ b.
              let paid = record s { balances = b } in
              Ensures-bind Inv Inv (do_transfer info.owner buyer id (unlist id info.owner paid)) _
                (do_transfer-Ensures info.owner buyer id (unlist id info.owner paid)
                  (unlisted id info.owner paid)
                  (unlist-Inv id info.owner info paid e refl (with_balances b s v)))
                λ t i. event-Inv _ _ i
