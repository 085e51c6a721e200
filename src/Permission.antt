-- ===== src/Permission.antt =====
-- Tool permissions of the workers: packages/core/src/permission and the part of
-- packages/core/src/runtime/conductor-inbox.ts that settles them.
pub mod Policy
pub mod Broker
pub mod Handle
pub mod Registry
pub mod Inbox
pub mod Pipeline
pub mod Service
pub mod Stall
