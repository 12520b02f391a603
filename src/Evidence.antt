-- ===== src/Evidence.antt =====
-- The record of evidence of a task.
pub mod Defs
pub mod Laws
mod Tests
