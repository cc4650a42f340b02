-- ===== src/Faucet/Examples.antt =====
-- Concrete claims of pallets/eterra-faucet/src/lib.rs.
use eterra_polkadot_sdk_solo.Prelude.{ℕ, ◌-◌, ◌≡◌, refl, none, some, []}
use eterra_polkadot_sdk_solo.Prelude.Results.{Result, ok, err, unsigned}
use eterra_polkadot_sdk_solo.Faucet.{Error, too_frequent, Store, Env, is_now, build, claim}
use eterra_polkadot_sdk_solo.Faucet.Claims.{none_yet, another, claim-once}

-- The faucet's balance is the whole currency.
abbrev env : Env ℕ
env = record {
  block_number = 4;
  free_balance = λ who b. b;
  transfer = λ from to amount b. some (b - amount);
}

abbrev opened : Store ℕ
unfolding build
opened =
    build (record { faucet_account = some 9; payout_amount = 30 })
      (record {
        faucet_account = none;
        payout_amount = 0;
        last_claim = λ a. none;
        events = [];
        balances = 100;
      })

abbrev stored : Result Error (Store ℕ) → Store ℕ
stored (ok s) = s
stored _ = opened

abbrev once : Store ℕ
unfolding build opened claim is_now
once = stored (claim env unsigned 1 opened)

abbrev twice : Store ℕ
unfolding build opened claim is_now once
twice = stored (claim env unsigned 2 once)

first_claims : claim env unsigned 1 opened ≡ ok once
unfolding build opened claim is_now once
first_claims = refl

second_claims : claim env unsigned 2 once ≡ ok twice
unfolding build opened claim is_now once twice
second_claims = refl

claim-once_example : claim env unsigned 1 twice ≡ err too_frequent
claim-once_example =
    claim-once env unsigned 1 opened first_claims
      (another (none_yet once) env unsigned 2 refl second_claims) env refl
