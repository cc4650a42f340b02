-- ===== src/SimpleTcg/Examples.antt =====
-- Concrete runs of the card pallet, pallets/eterra-simple-tcg/src/lib.rs: account 1 mints a card and
-- offers it for 50, and account 2 buys it.
use eterra_polkadot_sdk_solo.Prelude.{
  ℕ, ◌+◌, ◌-◌, ◌≡◌, refl, leb, if◌then◌else◌, none, some, is_some, [], ◌∷◌, update, arith,
}
use eterra_polkadot_sdk_solo.Prelude.Results.{Result, ok, signed, ◌>>=◌}
use eterra_polkadot_sdk_solo.SimpleTcg.Store.{
  Store, Env, Error, card_listed, card_unlisted, deposit_event, put_card, put_owned, put_listed,
  put_price, push, to_stat, new_card_info, pay, check_name, create_new_card, unlist, swap_remove,
  fill_gap, do_transfer,
}
use eterra_polkadot_sdk_solo.SimpleTcg.Calls.{
  mint_card, set_price, add_listed, remove_price, buy_card,
}
use eterra_polkadot_sdk_solo.SimpleTcg.Counts.{count}
use eterra_polkadot_sdk_solo.SimpleTcg.Index.{owns}
use eterra_polkadot_sdk_solo.SimpleTcg.History.{
  mints, sets_price, dispatch, genesis, Reach, start, call, Reach-index, Sold, buy_card-Sold,
}
use eterra_polkadot_sdk_solo.SimpleTcg.Offers.{set_price-remove_price}

abbrev Balances : Type 0
Balances = ℕ → ℕ

abbrev moved : ℕ → ℕ → ℕ → Balances → Balances
moved from to amount b =
    let paid = update b from (b from - amount) in update paid to (paid to + amount)

abbrev env : Env Balances
env = record {
  transfer = λ from to amount requirement b.
      if leb amount (b from) then some (moved from to amount b) else none;
  mint_fee = 100;
  faucet_account = 9;
  block_number = 3;
  seed = 12345;
  hash_of = λ block owner seed id. 17 ∷ 8 ∷ 255 ∷ 0 ∷ [];
  name_of = λ id. 67 ∷ [];
}

abbrev rich : Balances
rich a = 1000

abbrev outcome : Result Error (Store Balances) → Store Balances
outcome (ok s) = s
outcome _ = genesis rich

abbrev minted : Store Balances
unfolding genesis dispatch mint_card create_new_card pay put_card push check_name put_owned
    deposit_event new_card_info to_stat
minted = outcome (dispatch env (signed 1) mints (genesis rich))

it_mints : dispatch env (signed 1) mints (genesis rich) ≡ ok minted
unfolding genesis dispatch mint_card create_new_card pay put_card push check_name put_owned
    deposit_event new_card_info to_stat
it_mints = refl

abbrev offered : Store Balances
unfolding genesis dispatch mint_card create_new_card pay put_card push check_name put_owned
    deposit_event new_card_info to_stat minted set_price add_listed put_price put_listed
offered = outcome (dispatch env (signed 1) (sets_price 0 50) minted)

it_is_offered : dispatch env (signed 1) (sets_price 0 50) minted ≡ ok offered
unfolding genesis dispatch mint_card create_new_card pay put_card push check_name put_owned
    deposit_event new_card_info to_stat minted set_price add_listed put_price put_listed
it_is_offered = refl

minted_few : minted.next_card_id ≡ 1
unfolding genesis dispatch mint_card create_new_card pay put_card push check_name put_owned
    deposit_event new_card_info to_stat minted
minted_few = refl

offered-Reach : Reach offered
unfolding genesis
offered-Reach =
    call (call (start rich) env (signed 1) mints rich (omega arith) it_mints) env (signed 1)
      (sets_price 0 50) minted.balances (omega (arith, minted_few)) it_is_offered

Reach-index_example :
    (count 0 (offered.owned_cards 1) ≡ owns 1 (offered.cards 0))
    × (count 0 (offered.listed_by_owner 1)
        ≡ (if is_some (offered.card_prices 0) then owns 1 (offered.cards 0) else 0))
Reach-index_example = Reach-index offered-Reach 1 0

abbrev sold : Store Balances
unfolding genesis dispatch mint_card create_new_card pay put_card push check_name put_owned
    deposit_event new_card_info to_stat minted set_price add_listed put_price put_listed offered
    buy_card unlist do_transfer swap_remove fill_gap
sold = outcome (buy_card env (signed 2) 0 offered)

it_is_sold : buy_card env (signed 2) 0 offered ≡ ok sold
unfolding genesis dispatch mint_card create_new_card pay put_card push check_name put_owned
    deposit_event new_card_info to_stat minted set_price add_listed put_price put_listed offered
    buy_card unlist do_transfer swap_remove fill_gap
it_is_sold = refl

buyer_has_paid : (sold.balances 2 ≡ 950) × (sold.owned_cards 2 ≡ 0 ∷ []) × (sold.owned_cards 1 ≡ [])
unfolding genesis dispatch mint_card create_new_card pay put_card push check_name put_owned
    deposit_event new_card_info to_stat minted set_price add_listed put_price put_listed offered
    buy_card unlist do_transfer swap_remove fill_gap sold
buyer_has_paid = (refl, refl, refl)

buy_card-Sold_example : Sold env 2 0 offered sold
buy_card-Sold_example = buy_card-Sold env 2 0 offered sold it_is_sold

minted-Reach : Reach minted
unfolding genesis
minted-Reach = call (start rich) env (signed 1) mints rich (omega arith) it_mints

set_price-remove_price_example :
    (set_price (signed 1) 0 70 minted >>= remove_price (signed 1) 0)
    ≡ ok (record minted { events = card_unlisted 1 0 ∷ card_listed 1 0 70 ∷ minted.events })
unfolding genesis dispatch mint_card create_new_card pay put_card push check_name put_owned
    deposit_event new_card_info to_stat minted
set_price-remove_price_example =
    set_price-remove_price minted-Reach 1 0 70 (new_card_info env 1 0) refl refl refl (omega arith)
