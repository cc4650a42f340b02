-- ===== src/Tcg/Types.antt =====
-- The data of pallets/eterra-tcg/src/lib.rs.
use eterra_polkadot_sdk_solo.Prelude.{ℕ, Bool, Option, List}

pub record CardInfo : Type 0 where
  pub owner : ℕ
  pub finalized : Bool
  pub slot_values : Option (List ℕ)

pub record Pack : Type 0 where
  pub id : ℕ
  pub card_ids : List ℕ
  pub active_card_index : ℕ
  pub completed : Bool

pub data Event : Type 0 where
  pack_minted : ℕ → ℕ → Event
  slot_generated : ℕ → List ℕ → Event
  slot_accepted slot_finalized : ℕ → Event
  pack_completed : ℕ → ℕ → Event
  card_transferred : ℕ → ℕ → ℕ → Event

pub data Error : Type 0 where
  max_attempts_exceeded no_active_card pack_already_completed no_pack_found : Error
  max_packs_reached no_such_card not_card_owner : Error

-- One field for each storage item, and the events, newest first.
pub record Store : Type 0 where
  pub next_card_id : ℕ
  pub cards : ℕ → Option CardInfo
  pub player_packs : ℕ → List Pack
  pub active_card : ℕ → Option ℕ
  pub card_attempts : ℕ → ℕ
  pub events : List Event

-- The constants, the block, and the hash: its first four bytes, by block, player and seed.
pub record Env : Type 0 where
  pub randomness_seed : ℕ
  pub max_attempts : ℕ
  pub cards_per_pack : ℕ
  pub max_packs : ℕ
  pub block_number : ℕ
  pub slot_hash : ℕ → ℕ → ℕ → List ℕ
