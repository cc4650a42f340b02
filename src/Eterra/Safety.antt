-- ===== src/Eterra/Safety.antt =====
-- No call of pallets/eterra/src/lib.rs panics from a state that meets the invariant, and every call
-- that succeeds keeps it. This file has the shared guards; the children have the calls.
pub mod Guards
pub mod Moves
pub mod Creation
pub mod Calls
pub mod Hands
pub mod Reach
