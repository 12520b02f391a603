-- ===== src/Flow/Rounds.antt =====
-- A round of the graph in app/graph.py, from dispatch over the executions and the review to the next
-- route: its edges between `dispatch`, `exec_subtask`, `review_all` and `route_after_review`.
use ai_team_os.Prelude.{
  [], ◌∷◌, ltb, length, if◌then◌else◌, ℕ, zero, suc, String, Bool, ◌&&◌, Option, none, some, List,
  map, elem, filter,
}
use ai_team_os.Flow.Defs.{SubtaskState}
use ai_team_os.Flow.Review.{Surroundings, ReplanReason, review_all}
use ai_team_os.Flow.Routes.{Route, to_dispatch, to_send, route_dispatch, route_after_review}
use ai_team_os.Flow.Reducers.{merge_by}
use ai_team_os.Flow.Execute.{Workers, exec_subtask}

abbrev pub id_of : SubtaskState → String
id_of s = s.spec.subtask_id

abbrev pub is_sent : List String → SubtaskState → Bool
is_sent ids s = to_send s && elem (id_of s) ids

-- The subtasks with the results of those that are sent, joined by the reducer.
unfoldable pub joined : Workers → List String → List SubtaskState → List SubtaskState
joined w ids ss = merge_by id_of ss (map (λ s. (exec_subtask w ss s).0) (filter (is_sent ids) ss))

-- The reasons to replan that these executions give.
unfoldable pub reasons : Workers → List SubtaskState → List SubtaskState → List ReplanReason
reasons w all [] = []
reasons w all (s ∷ ss) =
    let rest = reasons w all ss in elim (exec_subtask w all s).1 [ none ↦ rest | some r ↦ r ∷ rest ]

unfoldable pub clash : Workers → List String → List SubtaskState → Bool
unfolding reasons
clash w ids ss = ltb 1 (length (reasons w ss (filter (is_sent ids) ss)))

-- The executions of those that are sent, side by side. The field `replan_reason` has no reducer: when
-- two of them write it, the graph raises an InvalidUpdateError. One reason is not kept, as the review
-- that follows always writes its own in its place.
unfoldable pub execute : Workers → List String → List SubtaskState → Option (List SubtaskState)
unfolding joined clash
execute w ids ss = if clash w ids ss then none else some (joined w ids ss)

pub data Outcome : Type 0 where
  -- a missing dependency, a `KeyError`
  crashed : Outcome
  -- an InvalidUpdateError
  conflicted : Outcome
  -- the run goes back to dispatch with these subtasks
  again : List SubtaskState → Outcome
  -- the run leaves the loop by a route
  leaves : Route → List SubtaskState → Outcome

abbrev pub go_to : List SubtaskState → Option Route → Outcome
go_to ss none = crashed
go_to ss (some to_dispatch) = again ss
go_to ss (some route) = leaves route ss

-- The review and the route after it; `replans` is the number of replans so far.
unfoldable pub review_round : Surroundings → ℕ → List SubtaskState → Outcome
review_round w replans ss =
    let reviewed = review_all w ss in
    go_to (merge_by id_of ss reviewed.subtasks) (
      route_after_review w.complexity replans reviewed.replan_reason
        (merge_by id_of ss reviewed.subtasks))

abbrev pub executed_round : Surroundings → ℕ → Option (List SubtaskState) → Outcome
executed_round w replans none = conflicted
executed_round w replans (some ts) = review_round w replans ts

abbrev pub dispatched :
    Surroundings → Workers → ℕ → List SubtaskState → Option (List String) → Outcome
dispatched w workers replans ss none = crashed
dispatched w workers replans ss (some ids) = executed_round w replans (execute workers ids ss)

unfoldable pub round : Surroundings → Workers → ℕ → List SubtaskState → Outcome
unfolding execute review_round
round w workers replans ss = dispatched w workers replans ss (route_dispatch ss)

-- Rounds until the run leaves the loop, on fuel; each round meets its own
-- surroundings, by the number of rounds that are left after it.
abbrev pub continue : Outcome → (List SubtaskState → Option Outcome) → Option Outcome
continue (again ss) k = k ss
continue o k = some o

unfoldable pub rounds :
    ℕ → (ℕ → Surroundings) → (ℕ → Workers) → ℕ → List SubtaskState → Option Outcome
unfolding round
rounds zero world workers replans ss = none
rounds (suc fuel) world workers replans ss =
    continue (round (world fuel) (workers fuel) replans ss)
      (λ ss'. rounds fuel world workers replans ss')
