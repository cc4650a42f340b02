-- ===== src/Node/ChainSpec/Payouts.antt =====
-- How long the faucet of a new chain lasts: the genesis configuration of node/src/chain_spec.rs with the
-- claims of pallets/eterra-faucet/src/lib.rs.
use eterra_polkadot_sdk_solo.Prelude.{
  ℕ, suc, ◌+◌, ◌-◌, ◌*◌, ◌≤◌, ◌<◌, ◌^◌, ◌≡◌, ◌≢◌, refl, sym, ap, ◌∙◌, subst, ltb, inl, inr, ◌⊎◌,
  true, Option, none, some, List, [], ◌∷◌, ◌++◌, map, arith,
}
use mathlib.Core.Option.{some-injective, none-ne-some}
use eterra_polkadot_sdk_solo.Prelude.Results.{Result, ok, Origin, unsigned}
use eterra_polkadot_sdk_solo.Prelude.Ensures.{is_ok, ok_injective, >>=-eq-ok, ok_or-eq-ok}
use eterra_polkadot_sdk_solo.Prelude.Each.{Has}
use eterra_polkadot_sdk_solo.Faucet.{Store, Env, Error, build, claim}
use eterra_polkadot_sdk_solo.Faucet.Claims.{
  Ends, by_account, by_root, repeated, unconfigured, poor, refused, pays, claim-Ends,
}
use eterra_polkadot_sdk_solo.Node.ChainSpec.{
  Keys, Genesis, ChainSpec, get_account_id_from_seed, authority_keys_from_seed, from_seeds,
  local_seeds, development_config, local_testnet_config, testnet_genesis,
}
use eterra_polkadot_sdk_solo.Runtime.Constants.{existential_deposit}

-- The balances: what they start from, the free balance, and the transfer.
pub record Bank (B : Type 0) : Type 0 where
  pub genesis : List (ℕ × ℕ) → Option B
  pub free_balance : ℕ → B → ℕ
  pub transfer : ℕ → ℕ → ℕ → B → Option B

-- An account that the genesis endows has that amount. An account that keeps the existential deposit
-- can send at least that much to another account, and then has so much less.
pub record IsBank {B : Type 0} (bank : Bank B) : Type 0 where
  pub endows :
      (l : List (ℕ × ℕ)) (b : B) (who amount : ℕ)
      → bank.genesis l ≡ some b
      → Has (who, amount) l
      → bank.free_balance who b ≡ amount
  pub sends :
      (from to amount : ℕ) (b : B)
      → to ≢ from
      → existential_deposit ≤ amount
      → amount + existential_deposit ≤ bank.free_balance from b
      → (b' : B) × (bank.transfer from to amount b ≡ some b')
        × (bank.free_balance from b' ≡ bank.free_balance from b - amount)

abbrev pub at_block : {B : Type 0} → Bank B → ℕ → Env B
at_block bank now = record {
  block_number = now;
  free_balance = bank.free_balance;
  transfer = bank.transfer;
}

-- The storage of the faucet on a chain that starts from that specification.
unfoldable pub opened : {B : Type 0} → ChainSpec → B → Store B
unfolding build
opened spec b = build spec.genesis.eterra_faucet record {
  faucet_account = none;
  payout_amount = 0;
  last_claim = λ a. none;
  events = [];
  balances = b;
}

-- The storages of the faucet `f` after `k` claims for other accounts have succeeded. What else happens
-- on the chain leaves the free balance of `f` alone.
pub data After {B : Type 0} (bank : Bank B) (spec : ChainSpec) (f : ℕ) : ℕ → Store B → Type 0 where
  launch :
      (b : B) → bank.genesis spec.genesis.balances ≡ some b → After bank spec f 0 (opened spec b)
  claims :
      {k : ℕ} {s t : Store B}
      → After bank spec f k s
      → (origin : Origin) (now dest : ℕ) → dest ≢ f
      → claim (at_block bank now) origin dest s ≡ ok t
      → After bank spec f (suc k) t
  elsewhere :
      {k : ℕ} {s : Store B}
      → After bank spec f k s
      → (b : B) → bank.free_balance f b ≡ bank.free_balance f s.balances
      → After bank spec f k (record s { balances = b })

-- A chain specification of the repository, and its faucet.
abbrev pub Built : Keys → Option (List ℕ) → ChainSpec → Type 0
Built keys wasm spec =
    (development_config keys wasm ≡ ok spec) ⊎ (local_testnet_config keys wasm ≡ ok spec)

-- What both specifications say of the faucet.
record Endowed (spec : ChainSpec) : Type 0 where
  account : ℕ
  configured :
      spec.genesis.eterra_faucet
      ≡ record { faucet_account = some account; payout_amount = 1000000000000000 }
  funded : Has {A = ℕ × ℕ} (account, 2 ^ 60) spec.genesis.balances

testnet_genesis-funds :
    (endowed : List ℕ) (faucet : ℕ)
    → Has {A = ℕ × ℕ} (faucet, 2 ^ 60) (map (λ (k : ℕ). (k, 2 ^ 60)) (endowed ++ faucet ∷ []))
testnet_genesis-funds [] faucet = inl refl
testnet_genesis-funds (a ∷ endowed) faucet = inr (testnet_genesis-funds endowed faucet)

testnet_genesis-Endowed :
    (authorities : List (ℕ × ℕ)) (root_key faucet : ℕ) (endowed : List ℕ) (spec : ChainSpec)
    → testnet_genesis authorities root_key (endowed ++ faucet ∷ []) true faucet 1000000000000000
      ≡ spec.genesis
    → Endowed spec
unfolding testnet_genesis
testnet_genesis-Endowed authorities root_key faucet endowed spec e = record {
  account = faucet;
  configured = sym (ap (λ g. g.eterra_faucet) e);
  funded =
      subst (λ (g : Genesis). Has {A = ℕ × ℕ} (faucet, 2 ^ 60) g.balances) e
        (testnet_genesis-funds endowed faucet);
}

development_config-Endowed :
    (keys : Keys) (wasm : Option (List ℕ)) (spec : ChainSpec)
    → development_config keys wasm ≡ ok spec
    → Endowed spec
unfolding development_config
development_config-Endowed keys wasm spec e =
    let (faucet, _, e1) = >>=-eq-ok (get_account_id_from_seed keys "Faucet") _ e in
    let (code, _, e2) = ok_or-eq-ok wasm "Development wasm not available" _ e1 in
    let (authorities, _, e3) =
      >>=-eq-ok (from_seeds (authority_keys_from_seed keys) ("Alice" ∷ [])) _ e2 in
    let (sudo, _, e4) = >>=-eq-ok (get_account_id_from_seed keys "Alice") _ e3 in
    let (endowed, _, e5) =
      >>=-eq-ok
        (from_seeds (get_account_id_from_seed keys)
          ("Alice" ∷ "Bob" ∷ "Alice//stash" ∷ "Bob//stash" ∷ []))
        _ e4 in
    testnet_genesis-Endowed authorities sudo faucet endowed spec
      (ap (λ z. z.genesis) (ok_injective e5))

local_testnet_config-Endowed :
    (keys : Keys) (wasm : Option (List ℕ)) (spec : ChainSpec)
    → local_testnet_config keys wasm ≡ ok spec
    → Endowed spec
unfolding local_testnet_config
local_testnet_config-Endowed keys wasm spec e =
    let (faucet, _, e1) = >>=-eq-ok (get_account_id_from_seed keys "Faucet") _ e in
    let (code, _, e2) = ok_or-eq-ok wasm "Development wasm not available" _ e1 in
    let (authorities, _, e3) =
      >>=-eq-ok (from_seeds (authority_keys_from_seed keys) ("Alice" ∷ "Bob" ∷ [])) _ e2 in
    let (sudo, _, e4) = >>=-eq-ok (get_account_id_from_seed keys "Alice") _ e3 in
    let (endowed, _, e5) =
      >>=-eq-ok (from_seeds (get_account_id_from_seed keys) local_seeds) _ e4 in
    testnet_genesis-Endowed authorities sudo faucet endowed spec
      (ap (λ z. z.genesis) (ok_injective e5))

Built-Endowed :
    (keys : Keys) (wasm : Option (List ℕ)) (spec : ChainSpec) → Built keys wasm spec → Endowed spec
Built-Endowed keys wasm spec (inl e) = development_config-Endowed keys wasm spec e
Built-Endowed keys wasm spec (inr e) = local_testnet_config-Endowed keys wasm spec e

module _ {B : Type 0} (bank : Bank B) (laws : IsBank bank) (spec : ChainSpec)
    (en : Endowed spec) where
  -- What the faucet holds after `k` claims.
  record Funded (k : ℕ) (s : Store B) : Type 0 where
    account : s.faucet_account ≡ some en.account
    payout : s.payout_amount ≡ 1000000000000000
    left : bank.free_balance en.account s.balances + k * 1000000000000000 ≡ 2 ^ 60

  opened-Funded : (b : B) → bank.genesis spec.genesis.balances ≡ some b → Funded 0 (opened spec b)
  unfolding opened
  opened-Funded b e =
      let free = laws.endows spec.genesis.balances b en.account (2 ^ 60) e en.funded in
      record {
        account = rw (ap (λ g. g.faucet_account) en.configured) refl;
        payout = ap (λ g. g.payout_amount) en.configured;
        left = omega (arith, free);
      }

  -- A claim that the faucet can pay.
  claim-pays :
      (k : ℕ) (s : Store B) (now dest : ℕ)
      → Funded k s
      → dest ≢ en.account
      → k < 1152
      → (b : B) × (bank.transfer en.account dest s.payout_amount s.balances ≡ some b)
        × (bank.free_balance en.account b + suc k * 1000000000000000 ≡ 2 ^ 60)
  claim-pays k s now dest v other few =
      let (b, sent, less) =
        laws.sends en.account dest s.payout_amount s.balances other (omega (arith, v.payout))
          (omega (arith, v.payout, v.left)) in
      (b, sent, omega (arith, less, v.left, v.payout))

  Funded-few : (k : ℕ) (s : Store B) → Funded k s → k ≤ 1152
  Funded-few k s v = omega (arith, v.left)

  claim-Funded :
      (k : ℕ) (s t : Store B) (origin : Origin) (now dest : ℕ)
      → Funded k s
      → dest ≢ en.account
      → claim (at_block bank now) origin dest s ≡ ok t
      → Funded (suc k) t
  claim-Funded k s t origin now dest v other e =
      read origin (claim (at_block bank now) origin dest s)
        (claim-Ends (at_block bank now) origin dest s) e
    where
      read :
          (o : Origin) (r : Result Error (Store B))
          → Ends (at_block bank now) dest s o r
          → r ≡ ok t
          → Funded (suc k) t
      read o r (by_account who) q = cc
      read o r by_root q = cc
      read o r (repeated last) q = cc
      read o r (unconfigured fresh missing) q = cc
      read o r (poor faucet fresh set_ less) q = cc
      read o r (refused faucet fresh set_ enough fails) q = cc
      read o r (pays faucet balances fresh set_ enough moves) q =
          let mine : faucet ≡ en.account =
            some-injective faucet en.account (sym set_ ∙ v.account) in
          let own_enough : s.payout_amount ≤ bank.free_balance en.account s.balances =
            subst (λ a. s.payout_amount ≤ bank.free_balance a s.balances) mine enough in
          let own_moves : bank.transfer en.account dest s.payout_amount s.balances ≡ some balances =
            subst (λ a. bank.transfer a dest s.payout_amount s.balances ≡ some balances) mine
              moves in
          let (b, sent, now_left) =
            claim-pays k s now dest v other (omega (arith, own_enough, v.payout, v.left)) in
          let same : b ≡ balances = some-injective b balances (sym sent ∙ own_moves) in
          subst (Funded (suc k)) (ok_injective q)
            record { account = v.account; payout = v.payout; left = rw (← same) now_left }

  After-Funded : {k : ℕ} {s : Store B} → After bank spec en.account k s → Funded k s
  After-Funded (launch b e) = opened-Funded b e
  After-Funded (claims {k = k} {s = s} {t = t} past origin now dest other e) =
      claim-Funded k s t origin now dest (After-Funded past) other e
  After-Funded (elsewhere past b same) =
      let v = After-Funded past in
      record { account = v.account; payout = v.payout; left = omega (arith, same, v.left) }

  -- A claim in a block in which the destination has not claimed yet.
  claim-lasts :
      (k : ℕ) (s : Store B) (now dest : ℕ)
      → Funded k s
      → dest ≢ en.account
      → s.last_claim dest ≢ some now
      → is_ok (claim (at_block bank now) unsigned dest s) ≡ ltb k 1152
  claim-lasts k s now dest v other fresh =
      verdict unsigned (claim (at_block bank now) unsigned dest s)
        (claim-Ends (at_block bank now) unsigned dest s) refl
    where
      is_mine : (faucet : ℕ) → s.faucet_account ≡ some faucet → faucet ≡ en.account
      is_mine faucet e = some-injective faucet en.account (sym e ∙ v.account)

      verdict :
          (o : Origin) (r : Result Error (Store B))
          → Ends (at_block bank now) dest s o r
          → o ≡ unsigned
          → is_ok r ≡ ltb k 1152
      verdict o r (by_account who) q = cc
      verdict o r by_root q = cc
      verdict o r (repeated last) q = absurd (fresh last)
      verdict o r (unconfigured first missing) q =
          absurd (none-ne-some en.account (sym missing ∙ v.account))
      verdict o r (poor faucet first set_ less) q =
          let own : bank.free_balance en.account s.balances < s.payout_amount =
            subst (λ a. bank.free_balance a s.balances < s.payout_amount) (is_mine faucet set_)
              less in
          ground (arith, own, v.payout, v.left)
      verdict o r (refused faucet first set_ enough fails) q =
          let own : s.payout_amount ≤ bank.free_balance en.account s.balances =
            subst (λ a. s.payout_amount ≤ bank.free_balance a s.balances) (is_mine faucet set_)
              enough in
          let own_fails : bank.transfer en.account dest s.payout_amount s.balances ≡ none =
            subst (λ a. bank.transfer a dest s.payout_amount s.balances ≡ none)
              (is_mine faucet set_) fails in
          let (b, sent, _) =
            claim-pays k s now dest v other (omega (arith, own, v.payout, v.left)) in
          absurd (none-ne-some b (sym own_fails ∙ sent))
      verdict o r (pays faucet balances first set_ enough moves) q =
          let own : s.payout_amount ≤ bank.free_balance en.account s.balances =
            subst (λ a. s.payout_amount ≤ bank.free_balance a s.balances) (is_mine faucet set_)
              enough in
          ground (arith, own, v.payout, v.left)

-- On a chain that starts from one of the two chain specifications, over balances that endow
-- accounts and send amounts as they should, where nothing but claims for other accounts than the
-- faucet changes its storage or its free balance: whatever such claims have succeeded in whatever
-- blocks, they are at most 1152; and an unsigned claim for such an account, which has not claimed
-- in the block, succeeds if and only if they are fewer.
pub faucet-lasts :
    {B : Type 0} (keys : Keys) (wasm : Option (List ℕ)) (spec : ChainSpec) (bank : Bank B) (f : ℕ)
    → Built keys wasm spec
    → IsBank bank
    → spec.genesis.eterra_faucet.faucet_account ≡ some f
    → {k : ℕ} {s : Store B} → After bank spec f k s
    → (now dest : ℕ) → dest ≢ f
    → s.last_claim dest ≢ some now
    → (k ≤ 1152) × (is_ok (claim (at_block bank now) unsigned dest s) ≡ ltb k 1152)
faucet-lasts keys wasm spec bank f built laws named {k} {s} past now dest other fresh =
    let en = Built-Endowed keys wasm spec built in
    let mine : f ≡ en.account =
      some-injective f en.account (sym named ∙ ap (λ g. g.faucet_account) en.configured) in
    let v = After-Funded bank laws spec en (subst (λ a. After bank spec a k s) mine past) in
    (
      Funded-few bank laws spec en k s v,
      claim-lasts bank laws spec en k s now dest v (subst (λ a. dest ≢ a) mine other) fresh,
    )
