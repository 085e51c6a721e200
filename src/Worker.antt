-- ===== src/Worker.antt =====
-- The workers of a session: packages/core/src/runtime/worker-runtime.ts.
pub mod State
pub mod Round
pub mod Attach
pub mod Send
pub mod Close
pub mod Status
pub mod Run
