-- ===== src/Runtime/Fees.antt =====
-- Transaction fees in the runtime: `FreeFaucetOrCurrencyAdapter` of runtime/src/configs/mod.rs, over the
-- adapter of the balances that it delegates to.
pub mod Examples
use eterra_polkadot_sdk_solo.Prelude.{
  ℕ, ◌≡◌, ◌↔◌, refl, sym, if◌then◌else◌, Bool, true, false, Option, none, some, inl, inr,
  Bool-cases,
}
use eterra_polkadot_sdk_solo.Prelude.Results.{bad_origin, signed}
use eterra_polkadot_sdk_solo.Faucet.{Store, Env, claim}

-- `pallet_eterra_faucet::Call`
pub data FaucetCall : Type 0 where
  claims : ℕ → FaucetCall

-- The calls of the other pallets are a parameter.
pub data RuntimeCall (C : Type 0) : Type 0 where
  eterra_faucet : FaucetCall → RuntimeCall C
  other_pallet : C → RuntimeCall C

-- The type of what was withdrawn: its default value, and its equality.
pub record LiquidityInfo (L : Type 0) : Type 0 where
  pub nothing : L
  pub equal : L → L → Bool
  pub equal_iff : (a b : L) → (equal a b ≡ true) ↔ (a ≡ b)

-- `OnChargeTransaction`, over the storage `B` of the balances: `none` is a transaction that is
-- not valid. `I` and `P` are the dispatch information before and after the call.
pub record OnChargeTransaction (C I P L B : Type 0) : Type 0 where
  pub withdraw_fee : ℕ → RuntimeCall C → I → ℕ → ℕ → B → Option (L × B)
  pub correct_and_deposit_fee : ℕ → I → P → ℕ → ℕ → L → B → Option B

-- `matches!(call, RuntimeCall::EterraFaucet(Call::claim { .. }))`
unfoldable pub is_claim : {C : Type 0} → RuntimeCall C → Bool
is_claim (eterra_faucet (claims dest)) = true
is_claim (other_pallet c) = false

module _ {C I P L B : Type 0} (info : LiquidityInfo L)
    (fungible : OnChargeTransaction C I P L B) where
  unfoldable pub withdraw_fee : ℕ → RuntimeCall C → I → ℕ → ℕ → B → Option (L × B)
  unfolding is_claim
  withdraw_fee who call i tip fee b =
      if is_claim call then some (info.nothing, b) else fungible.withdraw_fee who call i tip fee b

  unfoldable pub correct_and_deposit_fee : ℕ → I → P → ℕ → ℕ → L → B → Option B
  correct_and_deposit_fee who i post tip fee paid b =
      if info.equal paid info.nothing
      then some b
      else fungible.correct_and_deposit_fee who i post tip fee paid b

-- `impl OnChargeTransaction<Runtime> for FreeFaucetOrCurrencyAdapter`
unfoldable pub free_faucet_or_currency_adapter :
    {C I P L B : Type 0}
    → LiquidityInfo L
    → OnChargeTransaction C I P L B
    → OnChargeTransaction C I P L B
unfolding withdraw_fee correct_and_deposit_fee
free_faucet_or_currency_adapter info fungible = record {
  withdraw_fee = withdraw_fee info fungible;
  correct_and_deposit_fee = correct_and_deposit_fee info fungible;
}

-- The fungible adapter withdraws nothing where it gives the default, and then corrects nothing.
pub record KeepsNothing {C I P L B : Type 0} (info : LiquidityInfo L)
    (fungible : OnChargeTransaction C I P L B) : Type 0 where
  pub corrects :
      (who : ℕ) (i : I) (post : P) (tip fee : ℕ) (b : B)
      → fungible.correct_and_deposit_fee who i post tip fee info.nothing b ≡ some b

-- The balances after what was withdrawn (`o`), the call (`run`) and the correction, by either adapter.
abbrev pub settled :
    {C I P L B : Type 0}
    → OnChargeTransaction C I P L B
    → ℕ
    → I
    → P
    → ℕ
    → ℕ
    → (B → B)
    → Option (L × B)
    → Option B
settled adapter who i post tip actual run none = none
settled adapter who i post tip actual run (some (paid, b)) =
    adapter.correct_and_deposit_fee who i post tip actual paid (run b)

abbrev pub charged :
    {C I P L B : Type 0}
    → OnChargeTransaction C I P L B
    → ℕ
    → RuntimeCall C
    → I
    → P
    → ℕ
    → ℕ
    → ℕ
    → (B → B)
    → B
    → Option B
charged adapter who call i post tip fee actual run b =
    settled adapter who i post tip actual run (adapter.withdraw_fee who call i tip fee b)

module _ {C I P L B : Type 0} (info : LiquidityInfo L)
    (fungible : OnChargeTransaction C I P L B) where
  abbrev adapter : OnChargeTransaction C I P L B
  adapter = free_faucet_or_currency_adapter info fungible

  corrects-agrees :
      KeepsNothing info fungible
      → (who : ℕ) (i : I) (post : P) (tip fee : ℕ) (paid : L) (b : B)
      → adapter.correct_and_deposit_fee who i post tip fee paid b
        ≡ fungible.correct_and_deposit_fee who i post tip fee paid b
  unfolding free_faucet_or_currency_adapter correct_and_deposit_fee
  corrects-agrees keeps who i post tip fee paid b =
      elim (Bool-cases (info.equal paid info.nothing)) [
        | inr other ↦ rw other refl
        | inl same ↦ rw same (
            rw ((info.equal_iff paid info.nothing).0 same)
              (sym (keeps.corrects who i post tip fee b)))
      ]

  settled-agrees :
      KeepsNothing info fungible
      → (who : ℕ) (i : I) (post : P) (tip actual : ℕ) (run : B → B) (o : Option (L × B))
      → settled adapter who i post tip actual run o ≡ settled fungible who i post tip actual run o
  settled-agrees keeps who i post tip actual run none = refl
  settled-agrees keeps who i post tip actual run (some r) =
      corrects-agrees keeps who i post tip actual r.0 (run r.1)

  -- Where the fungible adapter corrects nothing when nothing was withdrawn: the runtime charges
  -- nothing for a faucet's claim, whatever the tip, the fees and the balances, and charges every
  -- other call just as the fungible adapter does. And a claim that an account signs fails with
  -- `BadOrigin`, whatever the state of the faucet.
  pub charged-waives :
      KeepsNothing info fungible
      → (who : ℕ) (call : RuntimeCall C) (i : I) (post : P) (tip fee actual : ℕ) (run : B → B)
        (b : B) (env : Env B) (dest : ℕ) (s : Store B)
      → (charged
            (free_faucet_or_currency_adapter info fungible)
            who
            call
            i
            post
            tip
            fee
            actual
            run
            b
          ≡ (if is_claim call
              then some (run b)
              else charged fungible who call i post tip fee actual run b))
        × (claim env (signed who) dest s ≡ bad_origin)
  unfolding free_faucet_or_currency_adapter withdraw_fee correct_and_deposit_fee is_claim claim
  charged-waives keeps who (eterra_faucet (claims d)) i post tip fee actual run b env dest s =
      (rw ((info.equal_iff info.nothing info.nothing).1 refl) refl, refl)
  charged-waives keeps who (other_pallet c) i post tip fee actual run b env dest s = (
    settled-agrees keeps who i post tip actual run
        (fungible.withdraw_fee who (other_pallet c) i tip fee b),
    refl,
  )
