-- ===== src/DailySlots/Types.antt =====
-- The data of pallets/eterra-daily-slots/src/lib.rs. `RollsThisBlock`, which no code reads or writes,
-- is left out.
use eterra_polkadot_sdk_solo.Prelude.{ℕ, Option, List}

pub data Error : Type 0 where
  roll_not_available_yet exceed_rolls_per_round invalid_configuration no_tickets_available : Error

pub data Event : Type 0 where
  slot_rolled : ℕ → List ℕ → Event
  weekly_winner : ℕ → Event
  win_rewarded : ℕ → ℕ → Event

pub record RollResult : Type 0 where
  pub timestamp : ℕ
  pub result : List ℕ

-- A symbol and its weight.
abbrev pub Entry : Type 0
Entry = ℕ × ℕ

-- One field for each storage item, the events, newest first, and the currency's storage. The
-- tickets stand in the order in which the storage map is iterated.
pub record Store (B : Type 0) : Type 0 where
  pub rolls_this_window : ℕ → ℕ × ℕ
  pub last_roll_time : ℕ → ℕ
  pub tickets_per_user : List (ℕ × ℕ)
  pub total_tickets : ℕ
  pub last_drawing_time : ℕ
  pub roll_history : ℕ → List RollResult
  pub reel_weights : ℕ → Option (List Entry)
  pub events : List Event
  pub balances : B

-- The configuration, the block and the time of the call, the currency, the order of the keys of the
-- ticket map, and the hashes: the first four bytes for a reel, as a number, and the first byte for
-- the drawing.
pub record Env (B : Type 0) : Type 0 where
  pub slot_length : ℕ
  pub options_per_slot : ℕ
  pub max_rolls : ℕ
  pub max_history : ℕ
  pub max_weight_entries : ℕ
  pub reward_per_win : ℕ
  pub block_number : ℕ
  pub now_secs : ℕ
  pub deposit_creating : ℕ → ℕ → B → B
  pub key_order : ℕ → ℕ
  pub reel_hash : ℕ → ℕ → ℕ → ℕ → ℕ → ℕ
  pub drawing_byte : ℕ → ℕ → ℕ
