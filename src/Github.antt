-- ===== src/Github.antt =====
-- packages/core/src/github: updates of issues and pull requests.
pub mod Debounce
pub mod Cursor
