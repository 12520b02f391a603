-- ===== src/Flow/Termination.antt =====
-- The rounds of a valid plan come to an end.
use ai_team_os.Prelude.{
  any, true, ℕ, zero, suc, ◌+◌, ◌*◌, ◌<◌, String, ◌≡◌, refl, sym, subst, ap, inl, false, Option,
  some, List, [], ◌∷◌, map, length, All, All-imp, arith, ok,
}
use ai_team_os.Plan.Schemas.{Plan}
use ai_team_os.Plan.Registry.{AgentRegistry}
use ai_team_os.Plan.Envelope.{PlanningEnvelope}
use ai_team_os.Plan.Validator.Defs.{validate_plan}
use ai_team_os.Flow.Defs.{SubtaskState, pending}
use ai_team_os.Flow.Reviewer.{max_rework_for}
use ai_team_os.Flow.Review.{Surroundings}
use ai_team_os.Flow.Progress.{IsSettled}
use ai_team_os.Flow.Execute.{Workers}
use ai_team_os.Flow.Rounds.{Outcome, crashed, conflicted, again, leaves, round, continue, rounds}
use native.Mathlib.Nat.{suc-mul}
use ai_team_os.Flow.Conflicts.{cannot_run}
use ai_team_os.Flow.OneRound.{IsRunning, IsLeft, Advances, round_lem}
use ai_team_os.Flow.Steps.{weight, IsWithin}
use ai_team_os.Flow.Descent.{total}

next :
    (Cause : Type 0) (plan : Plan) (limit tries : ℕ) (o : Outcome)
    (k : List SubtaskState → Option Outcome)
    → Advances Cause plan limit tries o
    → ((ss : List SubtaskState)
        → IsRunning plan limit ss
        → total limit ss < tries
        → (o' : Outcome) × (k ss ≡ some o') × IsLeft Cause o')
    → (o' : Outcome) × (continue o k ≡ some o') × IsLeft Cause o'
next Cause plan limit tries crashed k a rest = absurd a
next Cause plan limit tries conflicted k a rest = (conflicted, refl, a)
next Cause plan limit tries (leaves route ss) k a rest = (leaves route ss, refl, a)
next Cause plan limit tries (again ss) k a rest = rest ss a.0 a.1

module _ (plan : Plan) (registry : AgentRegistry) (budget : ℕ) (envelope : Option PlanningEnvelope)
    (valid : validate_plan plan registry budget envelope ≡ ok tt) where
  rounds_lem :
      (Cause : Type 0) (bound fuel : ℕ) (world : ℕ → Surroundings) (workers : ℕ → Workers)
      (replans : ℕ) (ss : List SubtaskState)
      → ((n : ℕ) → max_rework_for (world n).complexity ≡ bound)
      → ((n : ℕ) → any (cannot_run (workers n)) plan.subtasks ≡ true → Cause)
      → IsRunning plan bound ss
      → total bound ss < fuel
      → (o : Outcome) × (rounds fuel world workers replans ss ≡ some o) × IsLeft Cause o
  unfolding rounds
  rounds_lem Cause bound zero world workers replans ss same cause r h = absurd (omega (arith, h))
  rounds_lem Cause bound (suc fuel) world workers replans ss same cause r h =
      next Cause plan bound (total bound ss) (round (world fuel) (workers fuel) replans ss)
        (λ ss'. rounds fuel world workers replans ss')
        (subst
          (λ l. Advances Cause plan l (total l ss) (round (world fuel) (workers fuel) replans ss))
          (same fuel)
          (round_lem plan registry budget envelope valid Cause (world fuel) (workers fuel) replans
            ss (subst (λ l. IsRunning plan l ss) (sym (same fuel)) r) (cause fuel)))
        (λ ss' r' less.
          rounds_lem Cause bound fuel world workers replans ss' same cause r'
            (omega (arith, less, h)))

-- The subtasks of a plan before its first dispatch.
abbrev pub IsFresh : SubtaskState → Type 0
IsFresh s = (s.superseded ≡ false) × (s.runtime_status ≡ pending) × (s.rework_count ≡ 0)

fresh-total :
    (limit : ℕ) (ss : List SubtaskState) → All IsFresh ss → total limit ss ≡ length ss * (limit + 2)
unfolding weight
fresh-total limit [] a = omega arith
fresh-total limit (s ∷ ss) a =
    let here : weight limit s ≡ limit + 2 = rw (a.0.1, a.0.2) (omega arith) in
    omega (arith, here, fresh-total limit ss a.1, suc-mul (length ss) (limit + 2))

fresh-IsSettled : (s : SubtaskState) → IsFresh s → IsSettled s
fresh-IsSettled s a = record { active = a.0; settled = inl a.1 }

fresh-IsWithin : (limit : ℕ) (s : SubtaskState) → IsFresh s → IsWithin limit s
fresh-IsWithin limit s a u = omega (arith, a.2)

-- From the fresh subtasks of a plan that the validator accepts, whatever the workers and the
-- reviewers answer in each round and whatever the user steers, the rounds of dispatch, execution and
-- review end after at most as many rounds as there are subtasks times the limit of rework plus two,
-- and one: on the way to a new plan, or with every subtask passed, or by two executions that write
-- a reason to replan in one step, which the graph refuses. The last happens only when some round has
-- no worker for a subtask of the plan: no executor for one of an executor, or a role of neither an
-- executor nor a researcher.
pub rounds_terminate :
    (plan : Plan) (registry : AgentRegistry) (budget : ℕ) (envelope : Option PlanningEnvelope)
    (world : ℕ → Surroundings) (workers : ℕ → Workers) (complexity : String) (replans : ℕ)
    (ss : List SubtaskState)
    → validate_plan plan registry budget envelope ≡ ok tt
    → map (λ (s : SubtaskState). s.spec) ss ≡ plan.subtasks
    → All IsFresh ss
    → ((n : ℕ) → (world n).complexity ≡ complexity)
    → (o : Outcome) × (rounds
          (length ss * (max_rework_for complexity + 2) + 1)
          world
          workers
          replans
          ss
        ≡ some o)
      × IsLeft ((n : ℕ) × (any (cannot_run (workers n)) plan.subtasks ≡ true)) o
rounds_terminate plan registry budget envelope world workers complexity replans ss valid same fresh
      h =
    rounds_lem plan registry budget envelope valid
      ((n : ℕ) × (any (cannot_run (workers n)) plan.subtasks ≡ true)) (max_rework_for complexity) _
      world workers replans ss (λ n. ap max_rework_for (h n)) (λ n e. (n, e))
      (record {
        specs = same;
        settled = All-imp _ _ ss fresh-IsSettled fresh;
        within = All-imp _ _ ss (fresh-IsWithin (max_rework_for complexity)) fresh;
      })
      (omega (arith, fresh-total (max_rework_for complexity) ss fresh))
