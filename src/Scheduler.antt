-- ===== src/Scheduler.antt =====
-- The gangs of sharded models (internal/scheduler).
pub mod GangId
pub mod Forms
pub mod Shape
pub mod Ports
pub mod Placement
mod Tests
