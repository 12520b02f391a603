-- ===== src/Flow/Execute.antt =====
-- `exec_subtask` of app/graph.py: a subtask that is sent is executed by the worker of its role. The
-- workers and the failure signature, a hash, are parameters; events and the snapshot of the gateway
-- are left out.
use ai_team_os.Prelude.{
  ◌+◌, String, Text, codes, str_eq, Bool, false, ◌&&◌, Option, none, some, List, [], ◌∷◌, ◌++◌,
  if◌then◌else◌, elem, ◌==◌,
}
use ai_team_os.Flow.Defs.{SubtaskState, executed, rejected, ExecutionResult, ReturnCode, exited}
use ai_team_os.Flow.Rework.{has_no_progress, max_identical_signatures}
use ai_team_os.Flow.Reviewer.{is_implemented}
use ai_team_os.Flow.Review.{ReplanReason, rework_no_progress}

pub record Workers : Type 0 where
  -- a worker sees the subtask and all subtasks
  pub executor : Option (SubtaskState → List SubtaskState → ExecutionResult)
  pub researcher : SubtaskState → List SubtaskState → ExecutionResult
  -- failure_signature(subtask_id, assigned_role, None, [code])
  pub failure_signature : SubtaskState → String → String

-- A test report with return code 0.
abbrev pub has_passed_tests : Option ReturnCode → Bool
has_passed_tests (some (exited n)) = n == 0
has_passed_tests _ = false

abbrev pub verified_result : SubtaskState → Option ExecutionResult → Option ExecutionResult
verified_result item none = none
verified_result item (some r) =
    if str_eq item.spec.assigned_role "executor"
      && is_implemented r.metadata_status
      && has_passed_tests r.metadata_test_report
    then some r
    else none

-- The result of the first dependency that an executor has implemented, with tests that passed.
unfoldable pub verified_dependency : SubtaskState → List SubtaskState → Option ExecutionResult
verified_dependency s [] = none
verified_dependency s (item ∷ items) =
    let rest = verified_dependency s items in
    if elem item.spec.subtask_id s.spec.dependencies
    then elim (verified_result item item.execution_result) [ some r ↦ some r | none ↦ rest ]
    else rest

abbrev replay_summary : Text
replay_summary =
    codes
      "reused the approved implementation and passing test report from the dependency; no patch or command was repeated"

abbrev pub replayed : ExecutionResult → ExecutionResult
replayed r = record r { summary = replay_summary; metadata_status = some "implemented_replay" }

abbrev pub is_verification : Option String → Bool
is_verification none = false
is_verification (some c) = str_eq c "verification"

-- A verification takes over the result of its dependency; all else is run.
abbrev pub run_executor :
    (SubtaskState → List SubtaskState → ExecutionResult)
    → SubtaskState
    → List SubtaskState
    → Option ExecutionResult
    → ExecutionResult
run_executor run s all none = run s all
run_executor run s all (some r) =
    if is_verification s.spec.capability_required then replayed r else run s all

abbrev pub finished : SubtaskState → ExecutionResult → SubtaskState
finished s r = record s {
  runtime_status = executed;
  execution_result = some r;
  evidence_refs = r.evidence_refs;
}

abbrev pub refused : Workers → SubtaskState → String → SubtaskState
refused w s code = record s {
  runtime_status = rejected;
  rework_count = s.rework_count + 1;
  rework_signatures = s.rework_signatures ++ w.failure_signature s code ∷ [];
}

-- `executor_extra`, `extra`: a reason to replan.
abbrev pub no_progress_reason : SubtaskState → Option ReplanReason
no_progress_reason s =
    if has_no_progress max_identical_signatures s.rework_signatures
    then some (rework_no_progress (s.spec.subtask_id ∷ []))
    else none

abbrev pub exec_as_executor :
    Workers
    → List SubtaskState
    → SubtaskState
    → Option (SubtaskState → List SubtaskState → ExecutionResult)
    → SubtaskState × Option ReplanReason
exec_as_executor w all s none =
    let updated = refused w s "executor_unavailable" in (updated, no_progress_reason updated)
exec_as_executor w all s (some run) =
    (finished s (run_executor run s all (verified_dependency s all)), none)

-- The subtask afterwards, and the reason to replan that is written to the state.
unfoldable pub exec_subtask :
    Workers → List SubtaskState → SubtaskState → SubtaskState × Option ReplanReason
unfolding verified_dependency
exec_subtask w all s =
    if str_eq s.spec.assigned_role "executor"
    then exec_as_executor w all s w.executor
    else if str_eq s.spec.assigned_role "researcher"
    then (finished s (w.researcher s all), none)
    else (let updated = refused w s "unsupported_role" in (updated, no_progress_reason updated))
