-- ===== src/Session.antt =====
-- app/windows_control/session.py: the authority over the computer-control session.
pub mod Defs
pub mod Laws
mod Tests
