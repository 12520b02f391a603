-- ===== src/Completion/Defs.antt =====
-- `ProductCompletionValidator` of app/core/completion.py.
use ai_team_os.Prelude.{
  ℕ, ◌+◌, ◌-◌, String, Text, is_space, strip, contains_any, Bool, true, false, not, ◌&&◌, ◌||◌,
  Option, none, some, List, [], ◌∷◌, ◌++◌, if◌then◌else◌, ltb, leb, ◌==◌, str_eq, is_nil, length,
  any, filter,
}
use ai_team_os.Plan.Shape.{
  TaskShape, direct_response, read_only_research, code_analysis, code_change, windows_action,
  multi_step_delivery,
}
use ai_team_os.Flow.Defs.{
  SubtaskState, ExecutionResult, ReviewResult, ReviewStatus, pass, pass_with_notes,
}
use ai_team_os.Flow.Reviewer.{is_implemented}
use ai_team_os.Flow.Execute.{has_passed_tests}
use ai_team_os.Flow.Reducers.{add_keys, keys}

-- What the validator reads of the state.
pub record FinalState : Type 0 where
  pub user_goal : Text
  pub subtasks : List SubtaskState
  -- the tools of the calls
  pub tools_called : List Text
  -- (item.metadata or {}).get("verified")
  pub is_verified : ExecutionResult → Bool

abbrev pub active : List SubtaskState → List SubtaskState
active = filter (λ (s : SubtaskState). not s.superseded)

-- The execution results that there are.
unfoldable pub results_of : List SubtaskState → List ExecutionResult
results_of [] = []
results_of (s ∷ ss) =
    let rest = results_of ss in elim s.execution_result [ none ↦ rest | some r ↦ r ∷ rest ]

abbrev pub has_summary : ExecutionResult → Bool
has_summary r = not (is_nil (strip r.summary))

unfoldable pub claim_count : List ExecutionResult → ℕ
claim_count [] = 0
claim_count (r ∷ rs) = length r.claims + claim_count rs

-- `\s*` and then what follows.
abbrev pub skip_spaces : Text → Text
skip_spaces [] = []
skip_spaces (c ∷ s) = let rest = skip_spaces s in if is_space c then rest else c ∷ s

-- `([1-9])\s*个` at the start of a text.
abbrev pub counted : Text → Option ℕ
counted [] = none
counted (c ∷ s) =
    if leb 49 c && leb c 57
    then elim (skip_spaces s) [ [] ↦ none | d ∷ t ↦ if d == 20010 then some (c - 48) else none ]
    else none

-- What follows 找, 对比, 比较 or 研究 at the start of a text.
abbrev pub after_verb : Text → Option Text
after_verb [] = none
after_verb (c ∷ []) = if c == 25214 then some [] else none
after_verb (c ∷ d ∷ s) =
    if c == 25214
    then some (d ∷ s)
    else if (c == 23545 && d == 27604) || (c == 27604 && d == 36739) || (c == 30740 && d == 31350)
    then some s
    else none

abbrev pub requested_here : Option Text → Option ℕ
requested_here none = none
requested_here (some s) = counted (skip_spaces s)

-- The number that the goal asks for: the first match of `(?:找|对比|比较|研究)\s*([1-9])\s*个`.
unfoldable pub requested_count : Text → Option ℕ
requested_count [] = none
requested_count (c ∷ s) =
    let rest = requested_count s in
    elim (requested_here (after_verb (c ∷ s))) [ some n ↦ some n | none ↦ rest ]

abbrev pub reason_if : Bool → String → List String
reason_if true reason = reason ∷ []
reason_if false reason = []

abbrev pub too_few : ℕ → Option ℕ → Bool
too_few n none = false
too_few n (some m) = ltb n m

unfoldable pub research_reasons : FinalState → List ExecutionResult → List String
research_reasons state results =
    let n = claim_count results in
    reason_if (n == 0) "research_claims"
    ++ (reason_if (too_few n (requested_count state.user_goal)) "requested_result_count"
        ++ reason_if (not (any (λ r. not (is_nil r.evidence_refs)) results)) "evidence_coverage")

-- The result of an executor, and none counts as one without metadata.
abbrev pub has_diff : Option ExecutionResult → Bool
has_diff none = false
has_diff (some r) = is_implemented r.metadata_status

abbrev pub has_tests : Option ExecutionResult → Bool
has_tests none = false
has_tests (some r) = has_passed_tests r.metadata_test_report

abbrev pub is_pass : ReviewStatus → Bool
is_pass pass = true
is_pass pass_with_notes = true
is_pass _ = false

-- The last review has passed.
abbrev pub last_passes : List ReviewResult → Bool
last_passes [] = false
last_passes (r ∷ []) = is_pass r.status
last_passes (r ∷ q ∷ rs) = last_passes (q ∷ rs)

abbrev pub is_executor : SubtaskState → Bool
is_executor s = str_eq s.spec.assigned_role "executor"

unfoldable pub executor_reasons : List SubtaskState → List String
executor_reasons [] = []
executor_reasons (s ∷ ss) =
    reason_if (not (has_diff s.execution_result)) "code_diff"
    ++ (reason_if (not (has_tests s.execution_result)) "tests"
        ++ (reason_if (not (last_passes s.review_history)) "review" ++ executor_reasons ss))

unfoldable pub change_reasons : List SubtaskState → List String
unfolding executor_reasons
change_reasons ss =
    let executors = filter is_executor ss in
    reason_if (is_nil executors) "code_diff" ++ executor_reasons executors

abbrev pub write_words : List String
write_words = "write" ∷ "patch" ∷ "delete" ∷ "move" ∷ []

unfoldable pub shape_reasons :
    FinalState → TaskShape → List SubtaskState → List ExecutionResult → List String
unfolding research_reasons change_reasons
shape_reasons state read_only_research ss results = research_reasons state results
shape_reasons state code_change ss results = change_reasons ss
shape_reasons state code_analysis ss results =
    reason_if (any (contains_any write_words) state.tools_called) "unauthorized_write"
shape_reasons state windows_action ss results =
    reason_if (not (any state.is_verified results)) "action_verified"
shape_reasons state multi_step_delivery ss results = []
shape_reasons state direct_response ss results = []

-- The reasons in the order in which they are found, with repetitions.
unfoldable pub found_reasons : FinalState → TaskShape → List String
unfolding shape_reasons
found_reasons state direct_response = []
found_reasons state shape =
    let ss = active state.subtasks in
    let results = results_of ss in
    reason_if (not (any has_summary results)) "result_nonempty"
    ++ shape_reasons state shape ss results

pub record CompletionDecision : Type 0 where
  pub complete : Bool
  pub failure_code : Option String
  pub reasons : List String

-- Repeated reasons are removed.
unfoldable pub validate : FinalState → TaskShape → CompletionDecision
unfolding found_reasons
validate state shape =
    let unique = keys (add_keys (found_reasons state shape) []) in
    record {
      complete = is_nil unique;
      failure_code = if is_nil unique then none else some "completion_invalid";
      reasons = unique;
    }
