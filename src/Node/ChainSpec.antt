-- ===== src/Node/ChainSpec.antt =====
-- The chain specifications of node/src/chain_spec.rs, and `load_spec` of node/src/command.rs. The keys
-- that a seed gives, and what a chain specification is read from, are parameters.
pub mod Payouts
pub mod Examples
use Prim.Native.String.{String, ◌++◌ as ◌<>◌}
use text.Mathlib.Text.{◌==◌ as str_eq}
use eterra_polkadot_sdk_solo.Prelude.{
  ℕ, ◌^◌, ◌||◌, if◌then◌else◌, Bool, true, Option, none, some, List, [], ◌∷◌, ◌++◌, map,
}
use eterra_polkadot_sdk_solo.Prelude.Results.{Result, ok, ok_or, or_panic, ◌>>=◌}
use eterra_polkadot_sdk_solo.Faucet.{GenesisConfig}

-- `Pair::from_string(s, None)` with the public key of the pair, for sr25519, Aura and Grandpa, and
-- the account of an sr25519 key.
pub record Keys : Type 0 where
  pub sr25519 : String → Option ℕ
  pub aura : String → Option ℕ
  pub grandpa : String → Option ℕ
  pub into_account : ℕ → ℕ

-- A seed that gives no pair is a panic.
unfoldable pub get_from_seed : (String → Option ℕ) → String → Result String ℕ
get_from_seed from_string seed = or_panic (from_string ("//" <> seed))

unfoldable pub get_account_id_from_seed : Keys → String → Result String ℕ
unfolding get_from_seed
get_account_id_from_seed keys seed = do
  key ← get_from_seed keys.sr25519 seed
  ok (keys.into_account key)

unfoldable pub authority_keys_from_seed : Keys → String → Result String (ℕ × ℕ)
unfolding get_from_seed
authority_keys_from_seed keys s = do
  aura ← get_from_seed keys.aura s
  grandpa ← get_from_seed keys.grandpa s
  ok (aura, grandpa)

-- A value of the properties.
pub data Property : Type 0 where
  word : String → Property
  number : ℕ → Property

unfoldable pub chain_properties : List (String × Property)
chain_properties = ("tokenSymbol", word "COIN") ∷ ("tokenDecimals", number 12) ∷ []

pub data ChainType : Type 0 where
  development local : ChainType

-- The genesis configuration that is patched in, one field for each value of the JSON.
pub record Genesis : Type 0 where
  pub balances : List (ℕ × ℕ)
  pub aura_authorities : List ℕ
  pub grandpa_authorities : List (ℕ × ℕ)
  pub sudo_key : Option ℕ
  pub eterra_faucet : GenesisConfig

pub record ChainSpec : Type 0 where
  pub wasm : List ℕ
  pub name : String
  pub id : String
  pub chain_type : ChainType
  pub properties : List (String × Property)
  pub genesis : Genesis

unfoldable pub testnet_genesis : List (ℕ × ℕ) → ℕ → List ℕ → Bool → ℕ → ℕ → Genesis
testnet_genesis initial_authorities root_key endowed_accounts enable_println faucet_account payout =
    record {
      balances = map (λ k. (k, 2 ^ 60)) endowed_accounts;
      aura_authorities = map (λ x. x.0) initial_authorities;
      grandpa_authorities = map (λ x. (x.1, 1)) initial_authorities;
      sudo_key = some root_key;
      eterra_faucet = record { faucet_account = some faucet_account; payout_amount = payout };
    }

-- The accounts, or the authorities, of several seeds.
unfoldable pub from_seeds :
    {A : Type 0} → (String → Result String A) → List String → Result String (List A)
from_seeds f [] = ok []
from_seeds f (s ∷ ss) = f s >>= λ a. from_seeds f ss >>= λ l. ok (a ∷ l)

unfoldable pub development_config : Keys → Option (List ℕ) → Result String ChainSpec
unfolding get_account_id_from_seed authority_keys_from_seed from_seeds testnet_genesis
    chain_properties
development_config keys wasm_binary = do
  faucet ← get_account_id_from_seed keys "Faucet"
  wasm ← ok_or wasm_binary "Development wasm not available"
  authorities ← from_seeds (authority_keys_from_seed keys) ("Alice" ∷ [])
  sudo ← get_account_id_from_seed keys "Alice"
  endowed ←
      from_seeds (get_account_id_from_seed keys)
        ("Alice" ∷ "Bob" ∷ "Alice//stash" ∷ "Bob//stash" ∷ [])
  ok (record {
    wasm = wasm;
    name = "Development";
    id = "dev";
    chain_type = development;
    properties = chain_properties;
    genesis =
        testnet_genesis authorities sudo (endowed ++ faucet ∷ []) true faucet 1000000000000000;
  })

-- The seeds of the accounts that are funded besides the faucet.
abbrev pub local_seeds : List String
local_seeds =
    "Alice" ∷ "Bob" ∷ "Charlie" ∷ "Dave" ∷ "Eve" ∷ "Ferdie" ∷ "Alice//stash" ∷ "Bob//stash"
    ∷ "Charlie//stash" ∷ "Dave//stash" ∷ "Eve//stash" ∷ "Ferdie//stash" ∷ []

unfoldable pub local_testnet_config : Keys → Option (List ℕ) → Result String ChainSpec
unfolding get_account_id_from_seed authority_keys_from_seed from_seeds testnet_genesis
    chain_properties
local_testnet_config keys wasm_binary = do
  faucet ← get_account_id_from_seed keys "Faucet"
  wasm ← ok_or wasm_binary "Development wasm not available"
  authorities ← from_seeds (authority_keys_from_seed keys) ("Alice" ∷ "Bob" ∷ [])
  sudo ← get_account_id_from_seed keys "Alice"
  endowed ← from_seeds (get_account_id_from_seed keys) local_seeds
  ok (record {
    wasm = wasm;
    name = "Local Testnet";
    id = "local_testnet";
    chain_type = local;
    properties = chain_properties;
    genesis =
        testnet_genesis authorities sudo (endowed ++ faucet ∷ []) true faucet 1000000000000000;
  })

-- `load_spec`, with the chain specification that a file of that path holds.
unfoldable pub load_spec :
    Keys → Option (List ℕ) → (String → Result String ChainSpec) → String → Result String ChainSpec
unfolding development_config local_testnet_config
load_spec keys wasm_binary from_json_file id =
    if str_eq id "dev"
    then development_config keys wasm_binary
    else (if str_eq id "" || str_eq id "local"
        then local_testnet_config keys wasm_binary
        else from_json_file id)
