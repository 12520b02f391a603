-- ===== src/Approval.antt =====
-- app/core/approval.py: the approval service, its decisions, the check before execution, and the
-- JSONL log that a new process loads.
pub mod Defs
pub mod Lifecycle
pub mod Decisions
pub mod Binding
pub mod Recovery
pub mod Listing
mod Tests
