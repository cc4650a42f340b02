-- ===== src/Runtime.antt =====
-- The runtime, runtime/src: how it puts the pallets together.
pub mod Constants
pub mod Config
pub mod Calls
pub mod Chain
pub mod Keeps
pub mod Levels
pub mod Calm
pub mod Invariant
pub mod Sound
pub mod Panics
pub mod Examples
pub mod Fees
