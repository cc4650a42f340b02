-- ===== src/Faucet/Claims.antt =====
-- How a claim of pallets/eterra-faucet/src/lib.rs ends, and the limit of one claim in a block.
use eterra_polkadot_sdk_solo.Prelude.{
  ℕ, ◌≤◌, ◌<◌, ◌≡◌, ◌≢◌, refl, sym, ap, ◌∙◌, subst, ==_refl, leb, inl, inr, true, false, Bool-cases,
  Option-cases, Option, none, some, ◌∷◌, update, arith,
}
use eterra_polkadot_sdk_solo.Prelude.Maps.{update-cases}
use mathlib.Core.Option.{some-injective}
use eterra_polkadot_sdk_solo.Prelude.Ensures.{ok_injective}
use eterra_polkadot_sdk_solo.Prelude.Results.{
  Result, ok, err, bad_origin, Origin, signed, root, unsigned,
}
use eterra_polkadot_sdk_solo.Faucet.{
  Error, insufficient_faucet_balance, transfer_failed, not_configured, too_frequent, claimed, Store,
  Env, is_now, claim,
}

-- The storage after a payout.
abbrev pub paid : {B : Type 0} → Env B → ℕ → B → Store B → Store B
paid env dest balances s = record s {
  last_claim = update s.last_claim dest (some env.block_number);
  events = claimed dest s.payout_amount ∷ s.events;
  balances = balances;
}

-- How a claim must end, by the state of the faucet.
pub data Ends {B : Type 0} (env : Env B) (dest : ℕ) (s : Store B)
    : Origin → Result Error (Store B) → Type 0 where
  by_account : (who : ℕ) → Ends env dest s (signed who) bad_origin
  by_root : Ends env dest s root bad_origin
  repeated : s.last_claim dest ≡ some env.block_number → Ends env dest s unsigned (err too_frequent)
  unconfigured :
      s.last_claim dest ≢ some env.block_number
      → s.faucet_account ≡ none
      → Ends env dest s unsigned (err not_configured)
  poor :
      (faucet : ℕ)
      → s.last_claim dest ≢ some env.block_number
      → s.faucet_account ≡ some faucet
      → env.free_balance faucet s.balances < s.payout_amount
      → Ends env dest s unsigned (err insufficient_faucet_balance)
  refused :
      (faucet : ℕ)
      → s.last_claim dest ≢ some env.block_number
      → s.faucet_account ≡ some faucet
      → s.payout_amount ≤ env.free_balance faucet s.balances
      → env.transfer faucet dest s.payout_amount s.balances ≡ none
      → Ends env dest s unsigned (err transfer_failed)
  pays :
      (faucet : ℕ) (balances : B)
      → s.last_claim dest ≢ some env.block_number
      → s.faucet_account ≡ some faucet
      → s.payout_amount ≤ env.free_balance faucet s.balances
      → env.transfer faucet dest s.payout_amount s.balances ≡ some balances
      → Ends env dest s unsigned (ok (paid env dest balances s))

is_now-eq : (o : Option ℕ) (now : ℕ) → is_now o now ≡ true → o ≡ some now
unfolding is_now
is_now-eq none now e = cc
is_now-eq (some last) now e = ap some (ground arith)

is_now-ne : (o : Option ℕ) (now : ℕ) → is_now o now ≡ false → o ≢ some now
unfolding is_now
is_now-ne none now e q = cc
is_now-ne (some last) now e q =
    let same : last ≡ now = some-injective last now q in ground (arith, same, e)

is_now_self : (o : Option ℕ) (now : ℕ) → o ≡ some now → is_now o now ≡ true
unfolding is_now
is_now_self o now e = rw e (==_refl now)

-- A claim that a signed account or root sends fails with `BadOrigin`. An unsigned claim fails with
-- `TooFrequent` where the destination's last claim was in this block; else with `NotConfigured` where
-- no faucet account is set; else with `InsufficientFaucetBalance` where its free balance is below
-- the payout; else with `TransferFailed` where the currency refuses the transfer; and else it
-- succeeds, the destination is paid, and its claim is noted and announced.
pub claim-Ends :
    {B : Type 0} (env : Env B) (origin : Origin) (dest : ℕ) (s : Store B)
    → Ends env dest s origin (claim env origin dest s)
unfolding claim
claim-Ends env (signed who) dest s = by_account who
claim-Ends env root dest s = by_root
claim-Ends {B = B} env unsigned dest s =
    elim (Bool-cases (is_now (s.last_claim dest) env.block_number)) [
      | inl again ↦
          ends (rw again refl) (repeated (is_now-eq (s.last_claim dest) env.block_number again))
      | inr fresh ↦
          let first = is_now-ne (s.last_claim dest) env.block_number fresh in
          elim (Option-cases s.faucet_account) [
            | inl missing ↦ ends (rw (fresh, missing) refl) (unconfigured first missing)
            | inr (faucet, set_) ↦
                elim (Bool-cases (leb s.payout_amount (env.free_balance faucet s.balances))) [
                  | inr less ↦
                      ends (rw (fresh, set_, less) refl) (poor faucet first set_ (ground arith))
                  | inl enough ↦
                      elim (Option-cases (env.transfer faucet dest s.payout_amount s.balances)) [
                        | inl fails ↦
                            ends (rw (fresh, set_, enough, fails) refl)
                              (refused faucet first set_ (ground arith) fails)
                        | inr (balances, moves) ↦
                            ends (rw (fresh, set_, enough, moves) refl)
                              (pays faucet balances first set_ (ground arith) moves)
                      ]
                ]
          ]
    ]
  where
    ends :
        {r : Result Error (Store B)}
        → claim env unsigned dest s ≡ r
        → Ends env dest s unsigned r
        → Ends env dest s unsigned (claim env unsigned dest s)
    ends e v = subst (Ends env dest s unsigned) (sym e) v

-- The claims that succeed within the block `b`.
pub data Claims {B : Type 0} (b : ℕ) : Store B → Store B → Type 0 where
  none_yet : (s : Store B) → Claims b s s
  another :
      {s t u : Store B}
      → Claims b s t
      → (env : Env B) (origin : Origin) (dest : ℕ) → env.block_number ≡ b
      → claim env origin dest t ≡ ok u
      → Claims b s u

claim-noted :
    {B : Type 0} (env : Env B) (origin : Origin) (dest : ℕ) (s t : Store B)
    → claim env origin dest s ≡ ok t
    → (origin ≡ unsigned) × (t.last_claim ≡ update s.last_claim dest (some env.block_number))
claim-noted {B = B} env origin dest s t e =
    read origin (claim env origin dest s) (claim-Ends env origin dest s) e
  where
    read :
        (o : Origin) (r : Result Error (Store B))
        → Ends env dest s o r
        → r ≡ ok t
        → (o ≡ unsigned) × (t.last_claim ≡ update s.last_claim dest (some env.block_number))
    read o r (by_account who) q = cc
    read o r by_root q = cc
    read o r (repeated last) q = cc
    read o r (unconfigured fresh missing) q = cc
    read o r (poor faucet fresh set_ less) q = cc
    read o r (refused faucet fresh set_ enough fails) q = cc
    read o r (pays faucet balances fresh set_ enough moves) q =
        (refl, ap (λ z. z.last_claim) (sym (ok_injective q)))

Claims-keeps :
    {B : Type 0} {b dest : ℕ} {s t : Store B}
    → Claims b s t
    → s.last_claim dest ≡ some b
    → t.last_claim dest ≡ some b
Claims-keeps (none_yet s) noted = noted
Claims-keeps {b = b} {dest = dest} (another {t = t} {u = u} past env origin other now e) noted =
    let (is, q) = claim-noted env origin other t u e in
    rw q (
      update-cases (λ o. o ≡ some b) t.last_claim other (some env.block_number) dest
        (λ same. ap some now) (λ differs. Claims-keeps past noted))

-- After a claim for a destination that succeeds, and any further claims that succeed in the same
-- block, an unsigned claim for that destination in that block fails with `TooFrequent`.
pub claim-once :
    {B : Type 0} (env : Env B) (origin : Origin) (dest : ℕ) (s : Store B) {t u : Store B}
    → claim env origin dest s ≡ ok t
    → Claims env.block_number t u
    → (later : Env B) → later.block_number ≡ env.block_number
    → claim later unsigned dest u ≡ err too_frequent
unfolding claim
claim-once env origin dest s {t} {u} e claims later now =
    let (is, q) = claim-noted env origin dest s t e in
    let first : t.last_claim dest ≡ some env.block_number = rw (q, ==_refl dest) refl in
    let still : u.last_claim dest ≡ some later.block_number =
      Claims-keeps claims first ∙ ap some (sym now) in
    rw (is_now_self (u.last_claim dest) later.block_number still) refl
