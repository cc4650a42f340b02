-- ===== src/Runtime/Examples.antt =====
-- A concrete run of the chain of runtime/src/lib.rs: account 1 mints a card, block 1 sets the reels,
-- and account 5 rolls in block 2.
use eterra_polkadot_sdk_solo.Prelude.{
  ℕ, ◌==◌, if◌then◌else◌, ◌+◌, ◌≡◌, ◌≢◌, refl, Option, none, some, [], ◌∷◌, arith,
}
use eterra_polkadot_sdk_solo.Prelude.Results.{Result, ok, panic, signed}
use eterra_polkadot_sdk_solo.Runtime.Config.{Outside}
use eterra_polkadot_sdk_solo.Runtime.Fees.{other_pallet}
use eterra_polkadot_sdk_solo.Runtime.Calls.{
  eterra_simple_tcg, eterra_daily_slots, rolls, dispatch_slots,
}
use eterra_polkadot_sdk_solo.Runtime.Chain.{
  Storage, RuntimeError, dispatch, begin_block, genesis, Chain, starts, calls, begins,
  dispatch_other, lifted, put_slots, put_cards,
}
use eterra_polkadot_sdk_solo.Runtime.Panics.{Chain-dispatch}
use eterra_polkadot_sdk_solo.Runtime.Invariant.{Sound}
use eterra_polkadot_sdk_solo.Runtime.Sound.{Chain-Sound}
use eterra_polkadot_sdk_solo.SimpleTcg.History as Market
use eterra_polkadot_sdk_solo.SimpleTcg.Store.{
  to_stat, new_card_info, pay, check_name, create_new_card, push, put_card, put_owned,
  deposit_event,
}
use eterra_polkadot_sdk_solo.SimpleTcg.Calls.{mint_card}
use eterra_polkadot_sdk_solo.DailySlots.Roll.{
  all_equal, is_win, count_tickets, add_tickets, award_tickets, pay_out, pushed, push_history,
  used_rolls, settle, roll,
}
use eterra_polkadot_sdk_solo.DailySlots.Reels.{
  total_weight, select, spin_reel, spin, update_reel_weights,
}
use eterra_polkadot_sdk_solo.DailySlots.Drawing.{on_initialize, put_defaults, is_drawing_time}
use eterra_polkadot_sdk_solo.Faucet.{build}
use eterra_polkadot_sdk_solo.Matchmaker.History as Queue

-- The balances are the number of transfers so far.
abbrev outside : ℕ → Outside ℕ
outside block = record {
  block_number = block;
  now_secs = 6;
  transfer = λ from to amount requirement b. some (b + 1);
  free_balance = λ who b. 1000;
  deposit_creating = λ who amount b. b + 1;
  alice = 9;
  nonce = 0;
  key_order = λ k. k;
  game_id_of = λ a b block. 1;
  game_bytes = λ id. record { first = 1; rest = [] };
  game_account_bytes = λ id a. record { first = 1; rest = [] };
  blake_first_byte = λ h. 0;
  card_hash = λ block owner seed id. 17 ∷ 8 ∷ 255 ∷ 0 ∷ [];
  slot_hash = λ block player seed. 1 ∷ 2 ∷ 3 ∷ 4 ∷ [];
  reel_hash = λ now who reel block window. 7;
  drawing_byte = λ now total. 3;
  state_hash = λ s. 0;
  name_of = λ id. 67 ∷ [];
}

abbrev outcome : Result RuntimeError (Storage ℕ) → Storage ℕ
outcome (ok t) = t
outcome _ = genesis (record { faucet_account = none; payout_amount = 0 }) 0

abbrev began : Option (Storage ℕ) → Storage ℕ
began (some t) = t
began none = genesis (record { faucet_account = none; payout_amount = 0 }) 0

abbrev first : Storage ℕ
first = genesis (record { faucet_account = some 8; payout_amount = 10 }) 0

abbrev minted : Storage ℕ
unfolding dispatch dispatch_other lifted put_cards genesis build Market.genesis Queue.genesis
    Market.dispatch mint_card create_new_card pay put_card push check_name put_owned deposit_event
    new_card_info to_stat
minted =
    outcome (dispatch (outside 1) (signed 1) (other_pallet (eterra_simple_tcg Market.mints)) first)

it_mints :
    dispatch (outside 1) (signed 1) (other_pallet (eterra_simple_tcg Market.mints)) first
    ≡ ok minted
unfolding dispatch dispatch_other lifted put_cards genesis build Market.genesis Queue.genesis
    Market.dispatch mint_card create_new_card pay put_card push check_name put_owned deposit_event
    new_card_info to_stat
it_mints = refl

abbrev set : Storage ℕ
unfolding dispatch dispatch_other lifted put_cards genesis build Market.genesis Queue.genesis
    Market.dispatch mint_card create_new_card pay put_card push check_name put_owned deposit_event
    new_card_info to_stat begin_block put_slots on_initialize put_defaults is_drawing_time
    update_reel_weights minted
set = began (begin_block (outside 1) minted)

it_sets : begin_block (outside 1) minted ≡ some set
unfolding dispatch dispatch_other lifted put_cards genesis build Market.genesis Queue.genesis
    Market.dispatch mint_card create_new_card pay put_card push check_name put_owned deposit_event
    new_card_info to_stat begin_block put_slots on_initialize put_defaults is_drawing_time
    update_reel_weights minted
it_sets = refl

abbrev played : Storage ℕ
unfolding dispatch dispatch_other lifted put_cards genesis build Market.genesis Queue.genesis
    Market.dispatch mint_card create_new_card pay put_card push check_name put_owned deposit_event
    new_card_info to_stat begin_block put_slots on_initialize put_defaults is_drawing_time
    update_reel_weights dispatch_slots roll spin spin_reel select total_weight used_rolls settle
    award_tickets count_tickets add_tickets pay_out is_win all_equal push_history pushed minted set
played = outcome (dispatch (outside 2) (signed 5) (other_pallet (eterra_daily_slots rolls)) set)

it_plays : dispatch (outside 2) (signed 5) (other_pallet (eterra_daily_slots rolls)) set ≡ ok played
unfolding dispatch dispatch_other lifted put_cards genesis build Market.genesis Queue.genesis
    Market.dispatch mint_card create_new_card pay put_card push check_name put_owned deposit_event
    new_card_info to_stat begin_block put_slots on_initialize put_defaults is_drawing_time
    update_reel_weights dispatch_slots roll spin spin_reel select total_weight used_rolls settle
    award_tickets count_tickets add_tickets pay_out is_win all_equal push_history pushed minted set
it_plays = refl

ids_left :
    (first.cards.next_card_id ≡ 0)
    × (first.packs.next_card_id ≡ 0)
    × (set.cards.next_card_id ≡ 1)
    × (set.packs.next_card_id ≡ 0)
unfolding dispatch dispatch_other lifted put_cards genesis build Market.genesis Queue.genesis
    Market.dispatch mint_card create_new_card pay put_card push check_name put_owned deposit_event
    new_card_info to_stat begin_block put_slots on_initialize put_defaults is_drawing_time
    update_reel_weights minted set
ids_left = (refl, refl, refl, refl)

-- The rolls in the window of block 2: one of account 5.
abbrev rolled_once : ℕ → ℕ
rolled_once a = 0 + (if a == 5 then 1 else 0)

played-Chain : Chain 0 rolled_once 2 played
played-Chain =
    let (c0, p0, c1, p1) = ids_left in
    calls
      (begins
        (calls (starts 0 (record { faucet_account = some 8; payout_amount = 10 }) 0) (outside 1)
          (signed 1) (other_pallet (eterra_simple_tcg Market.mints)) (omega arith)
          (omega (arith, c0)) (omega (arith, p0)) it_mints)
        (outside 1) (omega arith) it_sets)
      (outside 2) (signed 5) (other_pallet (eterra_daily_slots rolls)) (omega arith)
      (omega (arith, c1)) (omega (arith, p1)) it_plays

Chain-Sound_example : Sound 0 rolled_once 2 played
Chain-Sound_example = Chain-Sound played-Chain

played_ids : played.cards.next_card_id ≡ 1
unfolding dispatch dispatch_other lifted put_cards genesis build Market.genesis Queue.genesis
    Market.dispatch mint_card create_new_card pay put_card push check_name put_owned deposit_event
    new_card_info to_stat begin_block put_slots on_initialize put_defaults is_drawing_time
    update_reel_weights dispatch_slots roll spin spin_reel select total_weight used_rolls settle
    award_tickets count_tickets add_tickets pay_out is_win all_equal push_history pushed minted set
    played
played_ids = refl

Chain-dispatch_example :
    (dispatch (outside 3) (signed 5) (other_pallet (eterra_daily_slots rolls)) played ≢ panic)
    × (begin_block (outside 3) played ≢ none)
Chain-dispatch_example =
    Chain-dispatch played-Chain (omega (arith, played_ids)) (outside 3) (signed 5)
      (other_pallet (eterra_daily_slots rolls)) (λ s. s)
