-- ===== src/Completion.antt =====
-- When a run counts as completed.
pub mod Defs
pub mod Finalize
pub mod Laws
mod Tests
