-- ===== src/SimpleTcg/Types.antt =====
-- The data of pallets/eterra-simple-tcg/src/lib.rs.
use eterra_polkadot_sdk_solo.Prelude.{ℕ, Bool, Option, List}

pub data CardEdition : Type 0 where
  base genesis limited promo : CardEdition

pub data RarityType : Type 0 where
  common uncommon rare epic legendary : RarityType

pub record CardInfo : Type 0 where
  pub owner : ℕ
  pub finalized : Bool
  pub slot_values : Option (List ℕ)
  pub name : List ℕ
  pub north : ℕ
  pub east : ℕ
  pub south : ℕ
  pub west : ℕ
  pub card_id : ℕ
  pub minted_at : ℕ
  pub price : ℕ
  pub edition : CardEdition
  pub rarity : RarityType
