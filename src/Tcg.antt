-- ===== src/Tcg.antt =====
-- Packs of cards, pallets/eterra-tcg/src/lib.rs.
pub mod Types
pub mod Cards
pub mod Packs
pub mod Frozen
pub mod Calls
pub mod Again
pub mod Steps
pub mod History
pub mod Examples
