-- ===== src/Control.antt =====
-- The mailbox by which the user steers a run.
pub mod Defs
pub mod Requests
pub mod Boxes
pub mod Laws
mod Tests
