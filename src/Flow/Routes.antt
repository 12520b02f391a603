-- ===== src/Flow/Routes.antt =====
-- The routes of app/graph.py after planning, dispatch and review. A missing dependency, a
-- `KeyError` there, is `none`.
use ai_team_os.Prelude.{
  ℕ, String, Bool, true, false, not, ◌&&◌, ◌||◌, Option, none, some, List, [], ◌∷◌, if◌then◌else◌,
  str_eq, ltb, is_nil, any, filter,
}
use ai_team_os.Flow.Defs.{SubtaskState, is_pending, is_passed, is_rejected, active_rejected}
use ai_team_os.Flow.Review.{ReplanReason, over_limit}

pub data Route : Type 0 where
  to_plan to_dispatch to_fail_rework_limit to_finalize : Route

-- REPLAN_LIMIT
abbrev pub replan_limit : ℕ
replan_limit = 2

-- `{s.subtask_id: s for s in subtasks}[id]`: the last one with that id.
unfoldable pub by_id : String → List SubtaskState → Option SubtaskState
by_id id [] = none
by_id id (s ∷ ss) =
    let rest = by_id id ss in
    elim rest [ some t ↦ some t | none ↦ if str_eq s.spec.subtask_id id then some s else none ]

-- all(by_id[d].runtime_status == "passed" for d in dependencies)
unfoldable pub all_passed : List SubtaskState → List String → Option Bool
unfolding by_id
all_passed table [] = some true
all_passed table (d ∷ ds) =
    let rest = all_passed table ds in
    elim (by_id d table) [
      | none ↦ none
      | some s ↦ if is_passed s.runtime_status then rest else some false
    ]

-- The ids of the subtasks among `ss` that the test admits and whose dependencies have passed.
unfoldable pub ready_among :
    (SubtaskState → Bool) → List SubtaskState → List SubtaskState → Option (List String)
unfolding all_passed
ready_among admits table [] = some []
ready_among admits table (s ∷ ss) =
    let rest = ready_among admits table ss in
    if admits s
    then elim (all_passed table s.spec.dependencies) [
      | none ↦ none
      | some yes_no ↦ elim rest [
        | none ↦ none
        | some ids ↦ some (if yes_no then s.spec.subtask_id ∷ ids else ids)
      ]
    ]
    else rest

abbrev pub to_send : SubtaskState → Bool
to_send s = not s.superseded && (is_pending s.runtime_status || is_rejected s.runtime_status)

-- The subtasks sent; when there is none the review comes next.
unfoldable pub route_dispatch : List SubtaskState → Option (List String)
route_dispatch ss = ready_among to_send ss ss

abbrev pub active_pending : SubtaskState → Bool
active_pending s = not s.superseded && is_pending s.runtime_status

unfoldable pub route_after_review :
    String → ℕ → Option ReplanReason → List SubtaskState → Option Route
route_after_review complexity replan_count (some reason) ss = some to_plan
route_after_review complexity replan_count none ss =
    let rejected = filter active_rejected ss in
    if not (is_nil rejected)
    then if any (over_limit complexity) rejected
      then some (if ltb replan_count replan_limit then to_plan else to_fail_rework_limit)
      else some to_dispatch
    else elim (ready_among active_pending (filter (λ s. not s.superseded) ss) ss) [
      | none ↦ none
      | some ids ↦ some (if is_nil ids then to_finalize else to_dispatch)
    ]
