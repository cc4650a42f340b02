-- ===== src/SimpleTcg/Calls.antt =====
-- The dispatchables of pallets/eterra-simple-tcg/src/lib.rs.
use eterra_polkadot_sdk_solo.Prelude.{ℕ, ◌==◌, if◌then◌else◌, true, false, is_some, some, contains}
use eterra_polkadot_sdk_solo.Prelude.Results.{
  Result, ok, Origin, ensure_signed, ensure, ok_or, ◌>>=◌, ◌>>◌,
}
use eterra_polkadot_sdk_solo.SimpleTcg.Store.{
  CardId, Store, Env, Error, no_such_card, not_card_owner, not_for_sale, not_owner, allow_death,
  card_minted, card_transferred, card_listed, card_bought, deposit_event, put_price, put_listed,
  push, pay, create_new_card, unlist, do_transfer,
}

module _ {B : Type 0} where
  unfoldable pub mint_card : Env B → Origin → Store B → Result Error (Store B)
  unfolding deposit_event
  mint_card env origin s = do
    player ← ensure_signed origin
    created ← create_new_card env player s
    ok (deposit_event (card_minted player created.0) created.1)

  unfoldable pub transfer_card : Origin → CardId → ℕ → Store B → Result Error (Store B)
  unfolding deposit_event
  transfer_card origin id to s = do
    from ← ensure_signed origin
    info ← ok_or (s.cards id) no_such_card
    ensure (info.owner == from) not_card_owner
    let s1 = (if is_some (s.card_prices id) then unlist id from s else s)
    t ← do_transfer from to id s1
    ok (deposit_event (card_transferred from to id) t)

  -- The entry of `ListedByOwner` for a card that is put up for sale.
  unfoldable pub add_listed : ℕ → CardId → Store B → Result Error (Store B)
  unfolding put_listed
  add_listed who id s =
      let pushed = push (s.listed_by_owner who) id >>= λ list. ok (put_listed who list s) in
      if contains (s.listed_by_owner who) id then ok s else pushed

  unfoldable pub set_price : Origin → CardId → ℕ → Store B → Result Error (Store B)
  unfolding put_price add_listed deposit_event
  set_price origin id price s = do
    who ← ensure_signed origin
    info ← ok_or (s.cards id) no_such_card
    ensure (info.owner == who) not_owner
    t ← add_listed who id (put_price id (some price) s)
    ok (deposit_event (card_listed who id price) t)

  unfoldable pub remove_price : Origin → CardId → Store B → Result Error (Store B)
  remove_price origin id s = do
    who ← ensure_signed origin
    info ← ok_or (s.cards id) no_such_card
    ensure (info.owner == who) not_owner
    ensure (is_some (s.card_prices id)) not_for_sale
    ok (unlist id who s)

  unfoldable pub buy_card : Env B → Origin → CardId → Store B → Result Error (Store B)
  unfolding deposit_event
  buy_card env origin id s = do
    buyer ← ensure_signed origin
    price ← ok_or (s.card_prices id) not_for_sale
    info ← ok_or (s.cards id) no_such_card
    ensure (if info.owner == buyer then false else true) not_owner
    paid ← pay env buyer info.owner price allow_death s
    t ← do_transfer info.owner buyer id (unlist id info.owner paid)
    ok (deposit_event (card_bought buyer info.owner id price) t)
