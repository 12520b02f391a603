-- ===== src/Plan/Recovery.antt =====
-- `bounded_plan_for_shape` of app/core/orchestration.py: the plan that needs no model, and the
-- proof that it is valid.
pub mod Defs
pub mod Valid
pub mod Budget
