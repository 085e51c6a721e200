-- ===== src/Session.antt =====
-- The conductor session: packages/core/src/conductor.
pub mod Event
pub mod Policy
pub mod Batch
pub mod Queue
pub mod Hold
pub mod Driver
pub mod Reminder
pub mod Loop
