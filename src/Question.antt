-- ===== src/Question.antt =====
-- The open questions of a session: packages/core/src/escalation.
pub mod Assent
pub mod Registry
pub mod Answer
pub mod MaxTurns
