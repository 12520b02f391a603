-- ===== src/Completion/Finalize.antt =====
-- The node `finalize` of app/graph.py. Of the report, the index of evidence is modelled; its prose is
-- left out.
use ai_team_os.Prelude.{
  String, str_eq, Bool, not, ◌||◌, List, [], ◌∷◌, ◌++◌, if◌then◌else◌, all, any,
}
use ai_team_os.Plan.Shape.{TaskShape}
use ai_team_os.Flow.Defs.{SubtaskState, is_passed}
use ai_team_os.Flow.Reducers.{add_keys, keys}
use ai_team_os.Completion.Defs.{FinalState, active, validate}

pub data FinalResult : Type 0 where
  finalize_conditions_not_met : FinalResult
  completion_invalid : List String → FinalResult
  -- with the index of evidence
  completed : List String → FinalResult

-- for s in active for eid in s.evidence_refs
unfoldable pub all_refs : List SubtaskState → List String
all_refs [] = []
all_refs (s ∷ ss) = s.evidence_refs ++ all_refs ss

abbrev pub has_pending : List String → Bool
has_pending = any (λ status. str_eq status "pending")

-- `statuses` are those of the approvals of the task.
unfoldable pub finalize : FinalState → TaskShape → List String → FinalResult
finalize state shape statuses =
    let ss = active state.subtasks in
    let completion = validate state shape in
    if not (all (λ (s : SubtaskState). is_passed s.runtime_status) ss) || has_pending statuses
    then finalize_conditions_not_met
    else if not completion.complete
    then completion_invalid completion.reasons
    else completed (keys (add_keys (all_refs ss) []))
