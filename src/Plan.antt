-- ===== src/Plan.antt =====
-- The planning core: the schemas of a plan, the registry of agents, the classification of a goal,
-- the envelope that bounds a plan, its validation, and the deterministic recovery plan.
pub mod Schemas
pub mod Registry
pub mod Complexity
pub mod Shape
pub mod Envelope
pub mod Validator
pub mod Bounds
pub mod Recovery
pub mod Repair
mod Tests
