-- ===== src/SimpleTcg.antt =====
-- The card pallet, pallets/eterra-simple-tcg/src/lib.rs.
pub mod Types
pub mod Store
pub mod Calls
pub mod Counts
pub mod Index
pub mod Safety
pub mod History
pub mod Offers
pub mod Examples
