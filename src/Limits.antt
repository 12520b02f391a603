-- ===== src/Limits.antt =====
-- The limits that a run is under: the calls of a workflow, the tools of a subtask, and the budget.
pub mod Cost
pub mod Reservations
pub mod Quota
pub mod Budget
mod Tests
