-- ===== src/AiAdapter/Types.antt =====
-- The data of crates/eterra-card-ai-adapter/src/lib.rs. The adapter's `Possession` and `Card` are
-- copies, field for field, of the game pallet's types, and the model uses those.
use eterra_polkadot_sdk_solo.Prelude.{ℕ, Bool, List}
use eterra_polkadot_sdk_solo.Eterra.Types.{Board}

pub record Slot : Type 0 where
  pub north : ℕ
  pub east : ℕ
  pub south : ℕ
  pub west : ℕ
  pub used : Bool

-- The five entries of a hand, and the two hands, are lists.
abbrev pub Hand : Type 0
Hand = List Slot

pub record State : Type 0 where
  pub board : Board
  pub scores : ℕ × ℕ
  pub player_turn : ℕ
  pub round : ℕ
  pub max_rounds : ℕ
  pub hands : List Hand

pub record Action : Type 0 where
  pub hand_index : ℕ
  pub x : ℕ
  pub y : ℕ
