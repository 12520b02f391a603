-- ===== src/Flow/Defs.antt =====
-- `SubtaskState` of app/core/state.py, with what an execution produces and what a review says
-- (app/core/schemas.py).
use ai_team_os.Prelude.{ℕ, String, Text, Bool, true, false, not, ◌&&◌, Option, List}
use ai_team_os.Plan.Schemas.{SubtaskSpec}

pub data RuntimeStatus : Type 0 where
  pending running executed passed rejected : RuntimeStatus

pub record Claim : Type 0 where
  pub claim_id : String
  pub evidence_ids : List String

-- The return code of a test report: negative after a signal, or missing.
pub data ReturnCode : Type 0 where
  exited killed : ℕ → ReturnCode
  no_code : ReturnCode

-- `ExecutionResult`; of its metadata, the keys that the checks read.
pub record ExecutionResult : Type 0 where
  pub summary : Text
  pub claims : List Claim
  pub evidence_refs : List String
  pub unverified_items : List Text
  pub metadata_status : Option String
  pub metadata_approval_id : Option String
  pub metadata_test_report : Option ReturnCode

pub data ReviewStatus : Type 0 where
  pass pass_with_notes rework block : ReviewStatus

pub data IssueCode : Type 0 where
  missing_artifact unknown_evidence claim_without_evidence claim_bad_evidence : IssueCode
  empty_summary no_content rework_empty_result tool_call_budget_exceeded : IssueCode
  executor_not_implemented missing_approval tests_failed executor_no_claims : IssueCode
  duplicate_claim_id scenario_always_reject scenario_reject_once scenario_reject_tool_once :
      IssueCode
  -- an issue that a model reports
  reported : String → IssueCode

pub record ReviewResult : Type 0 where
  pub status : ReviewStatus
  pub issues : List IssueCode
  pub rework_targets : List String
  pub accepted_claims : List String
  pub rejected_claims : List String

-- The subtask of the plan and its runtime fields.
pub record SubtaskState : Type 0 where
  pub spec : SubtaskSpec
  pub runtime_status : RuntimeStatus
  pub execution_result : Option ExecutionResult
  pub evidence_refs : List String
  pub review_history : List ReviewResult
  pub rework_count : ℕ
  pub rework_signatures : List String
  pub superseded : Bool

abbrev pub is_pending : RuntimeStatus → Bool
is_pending pending = true
is_pending _ = false

abbrev pub is_executed : RuntimeStatus → Bool
is_executed executed = true
is_executed _ = false

abbrev pub is_passed : RuntimeStatus → Bool
is_passed passed = true
is_passed _ = false

abbrev pub is_rejected : RuntimeStatus → Bool
is_rejected rejected = true
is_rejected _ = false

-- `not s.superseded and s.runtime_status == "rejected"`
abbrev pub active_rejected : SubtaskState → Bool
active_rejected s = not s.superseded && is_rejected s.runtime_status
