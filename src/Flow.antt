-- ===== src/Flow.antt =====
-- The loop of a run over its subtasks: dispatch, review, rework and the routes between them.
pub mod Defs
pub mod Rework
pub mod Reviewer
pub mod Accepted
pub mod Review
pub mod Routes
pub mod Retries
pub mod Ready
pub mod Progress
pub mod Reducers
pub mod Merge
pub mod Execute
pub mod Rounds
pub mod Conflicts
pub mod Steps
pub mod Descent
pub mod OneRound
pub mod Termination
mod Tests
