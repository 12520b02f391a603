-- ===== src/Lib.antt =====
-- The governance core of AI Team OS: what decides whether an agent, a plan or an operation may go
-- on. Paths are from the repository's root.
--
-- The parts and how they interact. A goal is classified and bounded by an envelope; a plan of
-- subtasks is validated against the registry of agents, the budget and the envelope, or replaced
-- by a deterministic recovery plan. The run loop dispatches the subtasks whose dependencies have
-- passed, reviews what was executed, and sends rejected ones back, to a new plan or to the end.
-- Model calls are under the budget and the cost governor, tool calls under the quota. An action is
-- decided by the permission policy at the stored mode; what it asks about needs a valid
-- approval; control of the desktop needs an active session. Every tool runs behind the gateway,
-- which puts these together; a patch of files is validated, applied as a whole and can be taken back.
-- The user steers a run by a mailbox of requests.
--
--   Prelude      tests on numbers, lists, texts, dicts in insertion order, results with errors
--   Permissions  app/security/permissions.py: RiskClassifier, PermissionPolicy (Defs), the store
--                and PermissionRuntime (Store); Policy and Confirmation hold the theorems
--   Approval     app/core/approval.py: ApprovalService (Defs); Lifecycle, Decisions, Binding,
--                Recovery and Listing hold the theorems
--   Session      app/windows_control/session.py: DeviceSessionManager (Defs); Laws
--   Plan         app/core/schemas.py (Schemas), app/core/registry.py (Registry),
--                app/core/complexity.py (Complexity), app/core/orchestration.py (Shape, Envelope,
--                Recovery), app/core/plan_validator.py (Validator); Bounds, Repair,
--                Validator.Acyclic, Validator.Checks and Recovery.Budget hold the theorems
--   Limits       app/core/workflow_cost.py (Cost, Reservations), app/gateway/tool_policy.py (Quota),
--                app/core/budget.py with ModelGateway.chat (Budget)
--   Gateway      app/gateway/tool_gateway.py with app/tools/spec.py (State, Defs, Govern,
--                Invoke) and app/core/tool_repair.py (Repair); Stages, Guards, Laws and Once
--   Patch        app/core/patch_engine.py (Lines, Defs, Paths, Store, Validator) and rollback_patch of
--                app/core/rollback.py (Undo); Sides, Hunks, Reverse, Safe, Validated, Untouched,
--                Atomic, Entries and Rollback hold the theorems
--   JsonLines    the files of JSON lines of app/core/approval.py and app/core/patch_engine.py
--   Control      app/core/task_control.py (Defs); Requests, Boxes and Laws
--   Completion   app/core/completion.py (Defs) and finalize of app/graph.py (Finalize); Laws
--   Flow         app/core/state.py (Defs, Reducers), app/core/rework_guard.py (Rework),
--                app/agents/reviewer.py (Reviewer), review_all of app/graph.py (Review), its
--                routes (Routes), exec_subtask (Execute) and the rounds they make (Rounds);
--                Accepted, Retries, Ready, Progress, Merge, Conflicts, Steps, Descent, OneRound and
--                Termination hold the theorems
--   Evidence     app/core/evidence.py: EvidenceWriter (Defs); Laws
--
-- How the code is modelled. An object with mutable fields is a record, and a method is a function
-- from the record to a new one with its result; an exception is an error value beside the state
-- that it leaves. A lock makes a method one step (the mailbox of Control holds its lock for less
-- than a method), and a run of a service is a sequence of steps in any order, with any arguments
-- and times. The clock, new ids and what a model or a tool answers are
-- arguments. Times are numbers, whole seconds or microseconds as the source compares them. Prose
-- is a list of code points where the code looks into it and a string where it only passes it on.
-- Hashes and JSON texts are parameters (of the hash that binds an approval, only SHA-256), and so is
-- the arithmetic of costs. `lower` is that of the
-- markers' alphabets: it maps the ASCII letters.
--
-- Bounds and fuel. The topological sort of a plan runs on fuel, one more than the number of nodes;
-- no node is taken twice, so the fuel is enough, and the check reports success or a cycle and
-- nothing else. The rounds of a run take fuel: the number of subtasks times the limit of rework plus
-- two, and one, is enough for a valid plan. All other loops are structural.
--
-- Not modelled: network, processes and SQLite themselves, the disk but for the files of Patch, Control
-- and JsonLines, the prompts and answers of models, events, the user interface, and the parts that only
-- wire these together.
pub mod Prelude
pub mod Permissions
pub mod Approval
pub mod Session
pub mod Plan
pub mod Limits
pub mod Flow
pub mod Evidence
pub mod Patch
pub mod Completion
pub mod Gateway
pub mod Control
pub mod JsonLines
