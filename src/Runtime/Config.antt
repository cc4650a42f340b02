-- ===== src/Runtime/Config.antt =====
-- The configuration of the pallets in runtime/src/lib.rs: their constants, and what they are connected
-- to. What comes from outside of the repository is a parameter.
use eterra_polkadot_sdk_solo.Prelude.{ℕ, ◌*◌, Bool, true, false, Option, List}
use eterra_polkadot_sdk_solo.Prelude.Results.{Origin, signed, root, unsigned}
use eterra_polkadot_sdk_solo.SimpleTcg.Types.{CardInfo}
use eterra_polkadot_sdk_solo.SimpleTcg.Store.{
  Env as CardEnv, ExistenceRequirement, keep_alive, allow_death,
}
use eterra_polkadot_sdk_solo.AiAdapter.Types.{State}
use eterra_polkadot_sdk_solo.MonteCarlo.{Config as SearchConfig}
use eterra_polkadot_sdk_solo.Eterra.Store.{Digest, Env as GameEnv}
use eterra_polkadot_sdk_solo.Tcg.Types.{Env as PackEnv}
use eterra_polkadot_sdk_solo.DailySlots.Types.{Env as SlotsEnv}
use eterra_polkadot_sdk_solo.Faucet.{Env as FaucetEnv}
use eterra_polkadot_sdk_solo.Gamer.{Env as GamerEnv}
use eterra_polkadot_sdk_solo.Matchmaker.{Config as QueueConfig}
use eterra_polkadot_sdk_solo.Runtime.Constants.{
  unit, eterra_num_players, eterra_max_rounds, max_roll_history_length, eterra_blocks_to_play_limit,
  max_slot_length, max_options_per_slot, max_rolls_per_round, max_weight_entries,
  players_per_match_const, queue_capacity_const, reward_per_win_amount, gamer_tag_max_len,
  avatar_cid_max_len, gamer_change_fee,
}

-- What a call finds outside of the pallets: the block, the time, the balances pallet over its
-- storage `B`, the account of Alice, the nonce of the search, the order of a map's keys, the hash
-- functions, and the formatted names of cards.
pub record Outside (B : Type 0) : Type 0 where
  pub block_number : ℕ
  pub now_secs : ℕ
  pub transfer : ℕ → ℕ → ℕ → ExistenceRequirement → B → Option B
  pub free_balance : ℕ → B → ℕ
  pub deposit_creating : ℕ → ℕ → B → B
  pub alice : ℕ
  pub nonce : ℕ
  pub key_order : ℕ → ℕ
  pub game_id_of : ℕ → ℕ → ℕ → ℕ
  pub game_bytes : ℕ → Digest
  pub game_account_bytes : ℕ → ℕ → Digest
  pub blake_first_byte : ℕ → ℕ
  pub card_hash : ℕ → ℕ → ℕ → ℕ → List ℕ
  pub slot_hash : ℕ → ℕ → ℕ → List ℕ
  pub reel_hash : ℕ → ℕ → ℕ → ℕ → ℕ → ℕ
  pub drawing_byte : ℕ → ℕ → ℕ
  pub state_hash : State → ℕ
  pub name_of : ℕ → List ℕ

-- `impl pallet_eterra_monte_carlo_ai::Config for Runtime`
abbrev pub search_config : SearchConfig
search_config = record { base_iterations = 200; max_playout_depth = 16; randomness_seed = 12345 }

-- `impl pallet_eterra_simple_matchmaker::Config for Runtime`
abbrev pub queue_config : QueueConfig
queue_config = record {
  players_per_match = players_per_match_const;
  queue_capacity = queue_capacity_const;
}

-- `frame_system::EnsureRoot`
unfoldable pub ensure_root_origin : Origin → Bool
ensure_root_origin (signed who) = false
ensure_root_origin root = true
ensure_root_origin unsigned = false

module _ {B : Type 0} (o : Outside B) where
  -- `impl pallet_eterra::Config for Runtime`, over the cards of the card pallet.
  abbrev pub game_env : (ℕ → Option CardInfo) → GameEnv
  game_env cards = record {
    num_players = eterra_num_players;
    max_rounds = eterra_max_rounds;
    blocks_to_play_limit = eterra_blocks_to_play_limit;
    hand_size = 5;
    ai_account = o.alice;
    ai_difficulty = 60;
    block_number = o.block_number;
    cards = cards;
    search = search_config;
    nonce = o.nonce;
    game_id_of = o.game_id_of;
    game_bytes = o.game_bytes;
    game_account_bytes = o.game_account_bytes;
    blake_first_byte = o.blake_first_byte;
  }

  -- `impl pallet_eterra_tcg::Config for Runtime`
  abbrev pub pack_env : PackEnv
  pack_env = record {
    randomness_seed = 42;
    max_attempts = 3;
    cards_per_pack = 5;
    max_packs = 10;
    block_number = o.block_number;
    slot_hash = o.slot_hash;
  }

  -- `impl pallet_eterra_simple_tcg::Config for Runtime`
  abbrev pub card_env : CardEnv B
  card_env = record {
    transfer = o.transfer;
    mint_fee = 100 * unit;
    faucet_account = o.alice;
    block_number = o.block_number;
    seed = 12345;
    hash_of = o.card_hash;
    name_of = o.name_of;
  }

  -- `impl pallet_eterra_daily_slots::Config for Runtime`
  abbrev pub slots_env : SlotsEnv B
  slots_env = record {
    slot_length = max_slot_length;
    options_per_slot = max_options_per_slot;
    max_rolls = max_rolls_per_round;
    max_history = max_roll_history_length;
    max_weight_entries = max_weight_entries;
    reward_per_win = reward_per_win_amount;
    block_number = o.block_number;
    now_secs = o.now_secs;
    deposit_creating = o.deposit_creating;
    key_order = o.key_order;
    reel_hash = o.reel_hash;
    drawing_byte = o.drawing_byte;
  }

  -- `impl pallet_eterra_faucet::Config for Runtime`
  abbrev pub faucet_env : FaucetEnv B
  faucet_env = record {
    block_number = o.block_number;
    free_balance = o.free_balance;
    transfer = λ from to amount b. o.transfer from to amount allow_death b;
  }

  -- `impl pallet_eterra_gamer::Config for Runtime`
  abbrev pub gamer_env : GamerEnv B
  gamer_env = record {
    transfer = λ from to amount b. o.transfer from to amount keep_alive b;
    change_fee = gamer_change_fee;
    faucet_account = o.alice;
    max_tag_len = gamer_tag_max_len;
    max_avatar_cid_len = avatar_cid_max_len;
    is_issuer = ensure_root_origin;
  }
