-- ===== src/DailySlots.antt =====
-- The daily slot machine, pallets/eterra-daily-slots/src/lib.rs.
pub mod Types
pub mod Reels
pub mod Roll
pub mod Drawing
pub mod Selection
pub mod Tickets
pub mod Rolled
pub mod Quiet
pub mod History
pub mod Winner
pub mod Outcome
pub mod Examples
