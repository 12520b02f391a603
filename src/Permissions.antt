-- ===== src/Permissions.antt =====
-- app/security/permissions.py: the permission modes, the classifier of actions, the policy, and
-- the store of the setting. A timestamp is the number of seconds that its text names.
pub mod Defs
pub mod Store
pub mod Policy
pub mod Confirmation
mod Tests
