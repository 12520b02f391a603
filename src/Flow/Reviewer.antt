-- ===== src/Flow/Reviewer.antt =====
-- `DeterministicReviewer` and `FakeReviewer` of app/agents/reviewer.py. An issue is its code: the
-- message and the id of the subtask, which every issue of a check shares, are left out.
use ai_team_os.Prelude.{
  is_nil, ℕ, String, Bool, true, false, not, ◌&&◌, ◌||◌, Option, none, some, List, [], ◌∷◌, ◌++◌,
  map, if◌then◌else◌, str_eq, ltb, ◌==◌, elem, Dict, lookup,
}
use ai_team_os.Flow.Defs.{
  SubtaskState, Claim, ReturnCode, exited, killed, no_code, ExecutionResult, IssueCode,
  ReviewResult, pass, rework, missing_artifact, unknown_evidence, claim_without_evidence,
  claim_bad_evidence, empty_summary, no_content, rework_empty_result, tool_call_budget_exceeded,
  executor_not_implemented, missing_approval, tests_failed, executor_no_claims, duplicate_claim_id,
  scenario_always_reject, scenario_reject_once, scenario_reject_tool_once,
}

-- MAX_REWORK_BY_COMPLEXITY
abbrev pub max_rework_by_complexity : Dict ℕ
max_rework_by_complexity = ("trivial", 0) ∷ ("simple", 0) ∷ ("standard", 1) ∷ ("complex", 2) ∷ []

unfoldable pub max_rework_for : String → ℕ
unfolding lookup
max_rework_for complexity = elim (lookup complexity max_rework_by_complexity) [
  | none ↦ 1
  | some n ↦ n
]

-- The issues of checks that follow each other.
abbrev pub in_turn : List (List IssueCode) → List IssueCode
in_turn [] = []
in_turn (is ∷ iss) = is ++ in_turn iss

-- One issue when the test holds.
abbrev pub issue_if : Bool → IssueCode → List IssueCode
issue_if true c = c ∷ []
issue_if false c = []

unfoldable pub unknown_ids : IssueCode → List String → List String → List IssueCode
unknown_ids code valid [] = []
unknown_ids code valid (e ∷ es) =
    let rest = unknown_ids code valid es in if elem e valid then rest else code ∷ rest

abbrev pub claim_checks : List String → Claim → List (List IssueCode)
claim_checks valid c =
    issue_if (is_nil c.evidence_ids) claim_without_evidence
    ∷ unknown_ids claim_bad_evidence valid c.evidence_ids
    ∷ []

unfoldable pub claim_issues : List String → List Claim → List IssueCode
claim_issues valid [] = []
claim_issues valid (c ∷ cs) = in_turn (claim_checks valid c) ++ claim_issues valid cs

-- status not in ("implemented", "implemented_replay")
abbrev pub is_implemented : Option String → Bool
is_implemented none = false
is_implemented (some s) = str_eq s "implemented" || str_eq s "implemented_replay"

-- `not approval_id`
abbrev pub has_approval : Option String → Bool
has_approval none = false
has_approval (some a) = not (str_eq a "")

-- A test report that is there and whose return code is not 0.
abbrev pub has_failed_tests : Option ReturnCode → Bool
has_failed_tests none = false
has_failed_tests (some (exited n)) = not (n == 0)
has_failed_tests (some (killed n)) = true
has_failed_tests (some no_code) = true

-- The checks of the result of an executor.
abbrev pub executor_checks : ExecutionResult → List (List IssueCode)
executor_checks r =
    issue_if (not (is_implemented r.metadata_status)) executor_not_implemented
    ∷ issue_if (not (has_approval r.metadata_approval_id)) missing_approval
    ∷ issue_if (has_failed_tests r.metadata_test_report) tests_failed
    ∷ issue_if (is_nil r.claims) executor_no_claims
    ∷ []

unfoldable pub executor_issues : ExecutionResult → List IssueCode
executor_issues r = in_turn (executor_checks r)

-- len(set(xs)) != len(xs)
abbrev pub has_repeated : List String → Bool
has_repeated [] = false
has_repeated (x ∷ xs) = elem x xs || has_repeated xs

abbrev pub claim_ids : List Claim → List String
claim_ids = map (λ c. c.claim_id)

-- The checks of a result that is there, in the order of the source.
abbrev pub result_checks : SubtaskState → List String → ℕ → ExecutionResult → List (List IssueCode)
result_checks s valid used_tool_calls r =
    unknown_ids unknown_evidence valid s.evidence_refs
    ∷ claim_issues valid r.claims
    ∷ issue_if (is_nil r.summary) empty_summary
    ∷ issue_if (is_nil r.claims && is_nil r.unverified_items) no_content
    ∷ issue_if (ltb 0 s.rework_count && is_nil r.claims && is_nil r.evidence_refs)
        rework_empty_result
    ∷ issue_if (ltb s.spec.tool_call_budget used_tool_calls) tool_call_budget_exceeded
    ∷ (if str_eq s.spec.assigned_role "executor" then executor_issues r else [])
    ∷ issue_if (has_repeated (claim_ids r.claims)) duplicate_claim_id
    ∷ []

unfoldable pub result_issues : SubtaskState → List String → ℕ → ExecutionResult → List IssueCode
result_issues s valid used_tool_calls r = in_turn (result_checks s valid used_tool_calls r)

-- `DeterministicReviewer.check`; the allowed tools of the agent are not read.
unfoldable pub check : SubtaskState → List String → ℕ → List IssueCode
unfolding result_issues
check s valid used_tool_calls = elim s.execution_result [
  | none ↦ missing_artifact ∷ []
  | some r ↦ result_issues s valid used_tool_calls r
]

-- The ids of the claims of a result, if there is one.
abbrev pub claims_of : Option ExecutionResult → List String
claims_of none = []
claims_of (some r) = claim_ids r.claims

abbrev reworked : SubtaskState → List IssueCode → List String → ReviewResult
reworked s issues rejected = record {
  status = rework;
  issues = issues;
  rework_targets = s.spec.subtask_id ∷ [];
  accepted_claims = [];
  rejected_claims = rejected;
}

abbrev pub passed_review : SubtaskState → ReviewResult
passed_review s = record {
  status = pass;
  issues = [];
  rework_targets = [];
  accepted_claims = claims_of s.execution_result;
  rejected_claims = [];
}

-- `FakeReviewer.review`
unfoldable pub fake_review : String → SubtaskState → List IssueCode → ReviewResult
fake_review scenario s issues =
    let first = is_nil s.review_history in
    if not (is_nil issues)
    then reworked s issues (claims_of s.execution_result)
    else if str_eq scenario "review_always_reject"
    then reworked s (scenario_always_reject ∷ []) (claims_of s.execution_result)
    else if str_eq scenario "review_reject_once_then_pass" && str_eq s.spec.subtask_id "s3" && first
    then reworked s (scenario_reject_once ∷ []) []
    else if str_eq scenario "review_reject_tool_once" && str_eq s.spec.subtask_id "s1" && first
    then reworked s (scenario_reject_tool_once ∷ []) []
    else passed_review s
