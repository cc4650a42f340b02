-- ===== src/Faucet.antt =====
-- The faucet, pallets/eterra-faucet/src/lib.rs.
pub mod Claims
pub mod Examples
use eterra_polkadot_sdk_solo.Prelude.{
  ℕ, ◌==◌, leb, not, if◌then◌else◌, Bool, true, false, Option, none, some, List, [], ◌∷◌, update,
}
use eterra_polkadot_sdk_solo.Prelude.Results.{
  Result, ok, err, Origin, ensure_none, ensure, ok_or, ◌>>=◌, ◌>>◌,
}

pub data Error : Type 0 where
  insufficient_faucet_balance transfer_failed not_configured too_frequent : Error

pub data Event : Type 0 where
  claimed : ℕ → ℕ → Event

-- The storage, the events, newest first, and the currency's storage.
pub record Store (B : Type 0) : Type 0 where
  pub faucet_account : Option ℕ
  pub payout_amount : ℕ
  pub last_claim : ℕ → Option ℕ
  pub events : List Event
  pub balances : B

pub record GenesisConfig : Type 0 where
  pub faucet_account : Option ℕ
  pub payout_amount : ℕ

-- The currency: the free balance, and the transfer, which fails or gives its new storage.
pub record Env (B : Type 0) : Type 0 where
  pub block_number : ℕ
  pub free_balance : ℕ → B → ℕ
  pub transfer : ℕ → ℕ → ℕ → B → Option B

unfoldable pub is_now : Option ℕ → ℕ → Bool
is_now none now = false
is_now (some last) now = last == now

module _ {B : Type 0} where
  unfoldable pub build : GenesisConfig → Store B → Store B
  build config s = record s {
    faucet_account = elim config.faucet_account [ none ↦ s.faucet_account | some acc ↦ some acc ];
    payout_amount = config.payout_amount;
  }

  unfoldable pub claim : Env B → Origin → ℕ → Store B → Result Error (Store B)
  unfolding is_now
  claim env origin dest s = do
    ensure_none origin
    ensure (not (is_now (s.last_claim dest) env.block_number)) too_frequent
    faucet ← ok_or s.faucet_account not_configured
    ensure (leb s.payout_amount (env.free_balance faucet s.balances)) insufficient_faucet_balance
    balances ← ok_or (env.transfer faucet dest s.payout_amount s.balances) transfer_failed
    ok (record s {
      last_claim = update s.last_claim dest (some env.block_number);
      events = claimed dest s.payout_amount ∷ s.events;
      balances = balances;
    })

-- The validity of an unsigned transaction: its priority, its longevity, whether it is propagated, and
-- the tag that it provides, which the pool admits once.
pub record Validity : Type 0 where
  pub priority : ℕ
  pub longevity : ℕ
  pub propagate : Bool
  pub provides : ℕ × ℕ

unfoldable pub validate_unsigned : ℕ → ℕ → Validity
validate_unsigned dest now = record {
  priority = 0;
  longevity = 1;
  propagate = true;
  provides = (dest, now);
}
