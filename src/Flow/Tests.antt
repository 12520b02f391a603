-- ===== src/Flow/Tests.antt =====
-- Subtasks that are dispatched, reviewed and routed, and the theorems at them.
use ai_team_os.Prelude.{
  ℕ, any, ◌+◌, Bool, Option, String, codes, ◌≡◌, ◌≢◌, refl, ◌↔◌, ◌⊎◌, inl, inr, true, false, none,
  some, List, [], ◌∷◌, ◌++◌, All, ok, lookup, insert,
}
use ai_team_os.Plan.Schemas.{SubtaskSpec, Plan, fill_orchestration_contract}
use ai_team_os.Plan.Registry.{get, default_registry}
use ai_team_os.Plan.Validator.Defs.{validate_plan}
use ai_team_os.Plan.Recovery.Defs.{specialist}
use ai_team_os.Flow.Defs.{
  SubtaskState, RuntimeStatus, pending, executed, passed, rejected, ExecutionResult,
  active_rejected,
}
use ai_team_os.Flow.Rework.{has_no_progress, max_identical_signatures, has_no_progress_iff}
use ai_team_os.Flow.Reviewer.{unknown_ids, claim_issues, fake_review, max_rework_for, check}
use ai_team_os.Flow.Accepted.{IsAcceptable, check-nil_iff}
use ai_team_os.Flow.Review.{Surroundings, review_one, review_all, issue_rejected}
use ai_team_os.Flow.Routes.{
  ready_among, to_plan, to_dispatch, to_finalize, to_fail_rework_limit, route_dispatch,
  route_after_review,
}
use ai_team_os.Flow.Retries.{CanRetry, no_blind_retry}
use ai_team_os.Flow.Execute.{Workers, exec_subtask}
use ai_team_os.Flow.Reducers.{merge_by_lem, last_with, or_else, merge_by}
use ai_team_os.Flow.Rounds.{clash, Outcome, leaves, id_of, rounds}
use ai_team_os.Flow.Conflicts.{cannot_run}
use ai_team_os.Flow.OneRound.{IsLeft}
use ai_team_os.Flow.Termination.{rounds_terminate}
use ai_team_os.Flow.Progress.{IsSettled, AllPassed, valid_plan_progress}

abbrev subtask : String → List String → SubtaskSpec
subtask id deps =
    specialist id "step" (codes "goal") deps "research" [] "facts" ("not empty" ∷ [])
      ("fixture_repo_lookup" ∷ []) 500 3

abbrev state_of : SubtaskSpec → RuntimeStatus → SubtaskState
state_of spec status = record {
  spec = spec;
  runtime_status = status;
  execution_result = none;
  evidence_refs = [];
  review_history = [];
  rework_count = 0;
  rework_signatures = [];
  superseded = false;
}

abbrev chain : Plan
chain = record { goal = codes "goal"; subtasks = subtask "a" [] ∷ subtask "b" ("a" ∷ []) ∷ [] }

abbrev half_done : List SubtaskState
half_done = state_of (subtask "a" []) passed ∷ state_of (subtask "b" ("a" ∷ [])) pending ∷ []

chain_valid : validate_plan chain default_registry 4000 none ≡ ok tt
unfolding validate_plan fill_orchestration_contract lookup insert get default_registry
chain_valid = refl

second_sent : route_dispatch half_done ≡ some ("b" ∷ [])
unfolding route_dispatch fill_orchestration_contract ready_among
second_sent = refl

half_done-IsSettled : All IsSettled half_done
half_done-IsSettled = (
  record { active = refl; settled = inr (inl refl) },
  (record { active = refl; settled = inl refl }, tt),
)

valid_plan_progress_example :
    (route_dispatch half_done ≢ none)
    × (route_dispatch half_done ≡ some [] → AllPassed half_done)
    × (route_after_review "standard" 0 none half_done ≢ none)
    × (route_after_review "standard" 0 none half_done ≡ some to_finalize → AllPassed half_done)
valid_plan_progress_example =
    valid_plan_progress chain default_registry 4000 none half_done "standard" 0 none chain_valid
      refl half_done-IsSettled

-- A review in which no model takes part.
abbrev quiet : Surroundings
quiet = record {
  complexity = "standard";
  review_required = true;
  is_real = false;
  scenario = "default";
  valid_ids = "e1" ∷ [];
  used_calls = λ s. 1;
  model_review = none;
  failure_signature = λ s r. "missing";
  steering = [];
}

abbrev no_result : SubtaskState
no_result = state_of (subtask "a" []) executed

-- Without a result the subtask is rejected, and dispatched once more.
rejected_once :
    route_after_review "standard" 0
      (review_all quiet (no_result ∷ [])).replan_reason
      (review_all quiet (no_result ∷ [])).subtasks
    ≡ some to_dispatch
unfolding review_all route_after_review fill_orchestration_contract fake_review check max_rework_for
rejected_once = refl

no_blind_retry_example :
    (route_after_review "standard" 0
          (review_all quiet (no_result ∷ [])).replan_reason
          (review_all quiet (no_result ∷ [])).subtasks
        ≡ some to_dispatch
      → All
          (λ s. active_rejected s ≡ true → CanRetry "standard" s)
          (review_all quiet (no_result ∷ [])).subtasks)
    × (route_after_review "standard" 0
          (review_all quiet (no_result ∷ [])).replan_reason
          (review_all quiet (no_result ∷ [])).subtasks
        ≢ some to_fail_rework_limit)
no_blind_retry_example = no_blind_retry quiet (no_result ∷ []) 0

issue_rejected_example :
    (no_result.superseded ≡ false
      → no_result.runtime_status ≡ executed
      → check no_result quiet.valid_ids (quiet.used_calls no_result) ≢ []
      → ((review_one quiet [] no_result).runtime_status ≡ rejected)
        × ((review_one quiet [] no_result).rework_count ≡ no_result.rework_count + 1))
    × ((no_result.superseded ≡ true) ⊎ (no_result.runtime_status ≢ executed)
        → review_one quiet [] no_result ≡ no_result)
issue_rejected_example = issue_rejected quiet [] no_result

abbrev good_result : ExecutionResult
good_result = record {
  summary = codes "done";
  claims = record { claim_id = "c1"; evidence_ids = "e1" ∷ [] } ∷ [];
  evidence_refs = "e1" ∷ [];
  unverified_items = [];
  metadata_status = none;
  metadata_approval_id = none;
  metadata_test_report = none;
}

abbrev with_result : SubtaskState
with_result = record no_result { execution_result = some good_result; evidence_refs = "e1" ∷ [] }

no_issue : check with_result ("e1" ∷ []) 1 ≡ []
unfolding check fill_orchestration_contract unknown_ids claim_issues
no_issue = refl

check-nil_iff_example : (check with_result ("e1" ∷ []) 1 ≡ []) ↔ (
    (r : ExecutionResult) × (with_result.execution_result ≡ some r)
    × IsAcceptable with_result ("e1" ∷ []) 1 r)
check-nil_iff_example = check-nil_iff with_result ("e1" ∷ []) 1

has_no_progress_iff_example :
    (has_no_progress max_identical_signatures ("x" ∷ "y" ∷ "y" ∷ []) ≡ true)
    ↔ ((rest : List String) × (s : String) × ("x" ∷ "y" ∷ "y" ∷ [] ≡ rest ++ s ∷ s ∷ []))
has_no_progress_iff_example = has_no_progress_iff ("x" ∷ "y" ∷ "y" ∷ [])

-- Workers that find nothing, and no executor.
abbrev idle : Workers
idle = record {
  executor = none;
  researcher = λ s all. record {
    summary = codes "nothing";
    claims = [];
    evidence_refs = [];
    unverified_items = [];
    metadata_status = none;
    metadata_approval_id = none;
    metadata_test_report = none;
  };
  failure_signature = λ s code. code;
}

abbrev fresh_chain : List SubtaskState
fresh_chain = state_of (subtask "a" []) pending ∷ state_of (subtask "b" ("a" ∷ [])) pending ∷ []

rounds_terminate_example :
    (o : Outcome) × (rounds 7 (λ n. quiet) (λ n. idle) 0 fresh_chain ≡ some o)
    × IsLeft ((n : ℕ) × (any (cannot_run idle) chain.subtasks ≡ true)) o
unfolding max_rework_for lookup
rounds_terminate_example =
    rounds_terminate chain default_registry 4000 none (λ n. quiet) (λ n. idle) "standard" 0
      fresh_chain chain_valid refl ((refl, refl, refl), ((refl, refl, refl), tt)) (λ n. refl)

abbrev is_given_up : Option Outcome → Bool
is_given_up (some (leaves to_plan ss)) = true
is_given_up _ = false

-- After a first failure the subtask is sent again, after a second one like it the plan is given up.
gives_up : is_given_up (rounds 3 (λ n. quiet) (λ n. idle) 0 fresh_chain) ≡ true
unfolding rounds route_dispatch ready_among review_all route_after_review
    fill_orchestration_contract fake_review check max_rework_for lookup insert exec_subtask merge_by
    unknown_ids claim_issues
gives_up = refl

merge_by_lem_example :
    (last_with id_of "a" (merge_by id_of fresh_chain half_done)
      ≡ or_else (last_with id_of "a" half_done) (last_with id_of "a" fresh_chain))
    × ((last_with id_of "a" half_done ≡ none) ⊎ (last_with id_of "a" [] ≡ none)
        → last_with id_of "a" (merge_by id_of (merge_by id_of fresh_chain half_done) [])
          ≡ last_with id_of "a" (merge_by id_of (merge_by id_of fresh_chain []) half_done))
    × (last_with id_of "a" (merge_by id_of (merge_by id_of fresh_chain half_done) half_done)
        ≡ last_with id_of "a" (merge_by id_of fresh_chain half_done))
merge_by_lem_example = merge_by_lem id_of fresh_chain half_done [] "a"

-- Two subtasks that have no worker and have failed before.
abbrev failed_twice : String → SubtaskState
failed_twice id =
    record (state_of (record (subtask id []) { assigned_role = "executor" }) pending) {
      rework_signatures = "f" ∷ "f" ∷ [];
    }

abbrev failing : Workers
failing = record idle { executor = none; failure_signature = λ s code. "f" }

two_reasons : clash failing ("a" ∷ "b" ∷ []) (failed_twice "a" ∷ failed_twice "b" ∷ []) ≡ true
unfolding clash exec_subtask fill_orchestration_contract has_no_progress
two_reasons = refl
