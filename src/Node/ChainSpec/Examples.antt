-- ===== src/Node/ChainSpec/Examples.antt =====
-- A concrete chain of node/src/chain_spec.rs, over concrete balances.
use Prim.Native.String.{String}
use text.Mathlib.Text.{◌==◌ as str_eq}
use mathlib.Core.Option.{some-injective, none-ne-some}
use eterra_polkadot_sdk_solo.Prelude.{
  ℕ, ◌+◌, ◌-◌, ◌≤◌, ◌^◌, ◌==◌, ◌≡◌, ◌≢◌, refl, ap, sym, ◌∙◌, if-eq, ltb, leb, if◌then◌else◌, inl,
  inr, Bool, true, Option, none, some, List, [], ◌∷◌, update, arith, ◌&&◌,
}
use eterra_polkadot_sdk_solo.Prelude.Results.{Result, ok, unsigned}
use eterra_polkadot_sdk_solo.Prelude.Ensures.{is_ok}
use eterra_polkadot_sdk_solo.Prelude.Each.{Has}
use eterra_polkadot_sdk_solo.Faucet.{Error, Store, claim}
use eterra_polkadot_sdk_solo.Node.ChainSpec.{Keys, ChainSpec, development_config}
use eterra_polkadot_sdk_solo.Node.ChainSpec.Payouts.{
  Bank, IsBank, at_block, opened, launch, claims, faucet-lasts,
}

abbrev key_of : String → Option ℕ
key_of s =
    if str_eq s "//Alice"
    then some 1
    else (if str_eq s "//Bob" then some 2 else (if str_eq s "//Faucet" then some 9 else some 5))

abbrev keys : Keys
keys = record { sr25519 = key_of; aura = key_of; grandpa = key_of; into_account = λ k. k }

abbrev code : Option (List ℕ)
code = some []

abbrev built : (spec : ChainSpec) × (development_config keys code ≡ ok spec)
unfolding development_config
built = (_, refl)

abbrev spec : ChainSpec
unfolding built
spec = built.0

is_faucet : spec.genesis.eterra_faucet.faucet_account ≡ some 9
unfolding spec built development_config
is_faucet = refl

-- Balances that start only from equal amounts of 2 ^ 60.
abbrev Ledger : Type 0
Ledger = ℕ → ℕ

abbrev equal_amounts : List (ℕ × ℕ) → Bool
equal_amounts [] = true
equal_amounts ((who, amount) ∷ l) = (amount == 2 ^ 60) && equal_amounts l

abbrev sent : ℕ → ℕ → ℕ → Ledger → Ledger
sent from to amount b = update (update b from (b from - amount)) to (b to + amount)

abbrev bank : Bank Ledger
bank = record {
  genesis = λ l. if equal_amounts l then some (λ a. 2 ^ 60) else none;
  free_balance = λ who b. b who;
  transfer = λ from to amount b. if leb amount (b from) then some (sent from to amount b) else none;
}

all_amounts :
    (l : List (ℕ × ℕ)) (who amount : ℕ)
    → equal_amounts l ≡ true
    → Has {A = ℕ × ℕ} (who, amount) l
    → 2 ^ 60 ≡ amount
all_amounts [] who amount e h = elim h [ ]
all_amounts ((a, n) ∷ l) who amount e (inl same) =
    let q : n ≡ amount = ap (λ (p : ℕ × ℕ). p.1) same in ground (arith, q, e)
all_amounts ((a, n) ∷ l) who amount e (inr later) =
    all_amounts l who amount (ground (arith, e)) later

endowed :
    (l : List (ℕ × ℕ)) (b : Ledger) (who amount : ℕ)
    → bank.genesis l ≡ some b
    → Has {A = ℕ × ℕ} (who, amount) l
    → b who ≡ amount
endowed l b who amount e h = elim (if-eq (equal_amounts l) _ _ e) [
  | inl (equal, now) ↦
      sym (ap (λ z. z who) (some-injective _ b now)) ∙ all_amounts l who amount equal h
  | inr (unequal, never) ↦ absurd (none-ne-some b never)
]

bank-IsBank : IsBank bank
bank-IsBank = record {
  endows = endowed;
  sends = λ from to amount b other big enough. (sent from to amount b, ground arith, ground arith);
}

starts : bank.genesis spec.genesis.balances ≡ some (λ a. 2 ^ 60)
unfolding spec built development_config
starts = refl

abbrev at_start : Store Ledger
at_start = opened spec (λ a. 2 ^ 60)

abbrev claimed : Result Error (Store Ledger) → Store Ledger
claimed (ok s) = s
claimed _ = at_start

abbrev once : Store Ledger
unfolding opened spec built development_config claim
once = claimed (claim (at_block bank 3) unsigned 2 at_start)

pays_once : claim (at_block bank 3) unsigned 2 at_start ≡ ok once
unfolding opened spec built development_config claim once
pays_once = refl

not_yet : once.last_claim 2 ≢ some 4
unfolding opened spec built development_config claim once
not_yet e = absurd (omega (arith, some-injective 3 4 e))

faucet-lasts_example : (1 ≤ 1152) × (is_ok (claim (at_block bank 4) unsigned 2 once) ≡ ltb 1 1152)
unfolding spec built
faucet-lasts_example =
    faucet-lasts keys code spec bank 9 (inl built.1) bank-IsBank is_faucet
      (claims (launch (λ a. 2 ^ 60) starts) unsigned 3 2 (omega arith) pays_once) 4 2 (omega arith)
      not_yet
