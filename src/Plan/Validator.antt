-- ===== src/Plan/Validator.antt =====
-- app/core/plan_validator.py: the ten checks on a plan, and what passing them means.
pub mod Defs
pub mod Counting
pub mod Keys
pub mod Build
pub mod Kahn
pub mod Links
pub mod Acyclic
pub mod Spec
pub mod Checks
