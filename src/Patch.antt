-- ===== src/Patch.antt =====
-- Patches: the text of a diff, its application to files, and the way back.
pub mod Lines
pub mod Defs
pub mod Sides
pub mod Hunks
pub mod Reverse
pub mod Paths
pub mod Store
pub mod Undo
pub mod Validator
pub mod Safe
pub mod Validated
mod Tests
pub mod Untouched
pub mod Atomic
pub mod Entries
pub mod Rollback
