-- ===== src/Eterra.antt =====
-- The game pallet, pallets/eterra.
pub mod Types
pub mod Capture
pub mod Recent
pub mod Store
pub mod Ai
pub mod Invariant
pub mod Safety
pub mod Course
pub mod Turns
pub mod Finished
pub mod Created
pub mod Examples
pub mod Play
pub mod Hands
pub mod Create
