-- ===== src/AiAdapter.antt =====
-- The AI adapter, crates/eterra-card-ai-adapter/src/lib.rs.
pub mod Types
pub mod Adapter
pub mod Mirror
pub mod Simulation
pub mod Refinement
pub mod Entries
pub mod Listing
pub mod Examples
