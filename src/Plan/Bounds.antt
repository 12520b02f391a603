-- ===== src/Plan/Bounds.antt =====
-- What `PlanningEnvelope.for_task` makes of any goal.
use ai_team_os.Prelude.{ℕ, ◌≤◌, ◌<◌, String, Text, ◌≡◌, ◌≢◌, ◌↔◌, true, none, some, List, [], arith}
use ai_team_os.Plan.Complexity.{TaskComplexity, trivial}
use ai_team_os.Plan.Shape.{capabilities_for_shape}
use ai_team_os.Plan.Envelope.{PlanningEnvelope, for_task, is_read_only}

-- An envelope is made exactly when the two budgets are positive.
pub for_task_iff :
    (goal : Text) (c : TaskComplexity) (tools : List String) (tokens calls : ℕ)
    → (for_task goal c tools tokens calls ≢ none) ↔ ((0 < tokens) × (0 < calls))
unfolding for_task
for_task_iff goal c tools tokens calls = (λ h. ground arith, λ h. ground arith)

-- The bounds of an envelope on subtasks are met by some number, which is at most six, and at most
-- three for read-only work; the calls are at most twenty and at most those given; and for a goal
-- that is not trivial some capability is allowed.
pub for_task_lem :
    (goal : Text) (c : TaskComplexity) (tools : List String) (tokens calls : ℕ)
    (e : PlanningEnvelope)
    → for_task goal c tools tokens calls ≡ some e
    → (e.min_subtasks ≤ e.max_subtasks)
      × (e.max_subtasks ≤ 6)
      × (is_read_only e.task_shape ≡ true → e.max_subtasks ≤ 3)
      × (e.max_model_calls ≤ 20)
      × (e.max_model_calls ≤ calls)
      × (c ≢ trivial → e.allowed_capabilities ≢ [])
unfolding for_task capabilities_for_shape
for_task_lem goal c tools tokens calls e h = ground arith
