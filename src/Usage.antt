-- ===== src/Usage.antt =====
-- packages/core/src/usage: the token counts of a session.
pub mod Rounds
pub mod Totals
pub mod Summary
pub mod Names
pub mod Split
