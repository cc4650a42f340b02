-- ===== src/Runtime/Fees/Examples.antt =====
-- Concrete fees in the runtime, runtime/src/configs/mod.rs.
use eterra_polkadot_sdk_solo.Prelude.{
  ℕ, ◌+◌, ◌-◌, ◌≡◌, refl, leb, if◌then◌else◌, Option, none, some, ◌==◌, ==_iff, [], ap, arith,
}
use eterra_polkadot_sdk_solo.Prelude.Results.{bad_origin, signed}
use eterra_polkadot_sdk_solo.Faucet.{Store, Env, claim}
use eterra_polkadot_sdk_solo.Runtime.Fees.{
  claims, eterra_faucet, other_pallet, LiquidityInfo, OnChargeTransaction, KeepsNothing, charged,
  free_faucet_or_currency_adapter, is_claim, charged-waives,
}

-- One balance; what was withdrawn is a number.
abbrev amounts : LiquidityInfo ℕ
amounts = record { nothing = 0; equal = ◌==◌; equal_iff = ==_iff }

-- The whole fee and the tip are withdrawn, and what is above the actual fee is given back.
abbrev fungible : OnChargeTransaction (Unit {0}) (Unit {0}) (Unit {0}) ℕ ℕ
fungible = record {
  withdraw_fee = λ who call i tip fee b. if leb fee b then some (fee, b - fee) else none;
  correct_and_deposit_fee = λ who i post tip fee paid b. some (b + (paid - fee));
}

corrects-nothing : (b fee : ℕ) → ◌≡◌ {A = Option ℕ} (some (b + (0 - fee))) (some b)
corrects-nothing b fee = ap some (omega arith)

keeps : KeepsNothing amounts fungible
keeps = record { corrects = λ who i post tip fee b. corrects-nothing b fee }

pays_20 : charged fungible 1 (other_pallet tt) tt tt 0 30 20 (λ b. b + 7) 100 ≡ some 87
pays_20 = refl

env : Env ℕ
env = record {
  block_number = 4;
  free_balance = λ who b. b;
  transfer = λ from to amount b. some (b - amount);
}

store : Store ℕ
store = record {
  faucet_account = some 9;
  payout_amount = 30;
  last_claim = λ a. none;
  events = [];
  balances = 10;
}

-- The account has 10 and is asked for 30.
charged-waives_example :
    (charged
        (free_faucet_or_currency_adapter amounts fungible)
        1
        (eterra_faucet (claims 2))
        tt
        tt
        5
        30
        20
        (λ b. b)
        10
      ≡ (if is_claim {C = Unit {0}} (eterra_faucet (claims 2))
          then some 10
          else charged fungible 1 (eterra_faucet (claims 2)) tt tt 5 30 20 (λ b. b) 10))
    × (claim env (signed 1) 2 store ≡ bad_origin)
charged-waives_example =
    charged-waives amounts fungible keeps 1 (eterra_faucet (claims 2)) tt tt 5 30 20 (λ b. b) 10 env
      2 store
