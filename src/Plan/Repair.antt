-- ===== src/Plan/Repair.antt =====
-- `deterministic_simplification` of app/core/orchestration.py keeps a plan valid.
use ai_team_os.Prelude.{
  subst, Bool-cases, ℕ, zero, suc, ◌+◌, ◌≤◌, ◌<◌, min, String, ◌≡◌, refl, sym, ap, Bool, true,
  false, none, List, [], ◌∷◌, map, elem, length, take, length-take, filter, All, arith, inl, inr,
  Bool-cases, leb,
}
use ai_team_os.Plan.Schemas.{SubtaskSpec, Plan}
use ai_team_os.Plan.Registry.{AgentRegistry}
use ai_team_os.Plan.Envelope.{
  PlanningEnvelope, keep_dependencies, ids_of, deterministic_simplification,
}
use ai_team_os.Plan.Validator.Defs.{total_budget}
use ai_team_os.Plan.Validator.Links.{EachLink}
use ai_team_os.Plan.Validator.Acyclic.{EachLink-map}
use ai_team_os.Plan.Validator.Spec.{IsValidPlan, IsExecutable, FitsEnvelope, AreDistinct}

All-take {ℓ κ} : {A : Type ℓ} (P : A → Type κ) (n : ℕ) (xs : List A) → All P xs → All P (take n xs)
All-take P zero xs a = tt
All-take P (suc n) [] a = tt
All-take P (suc n) (x ∷ xs) a = (a.0, All-take P n xs a.1)

All-map {ℓ κ} :
    {A : Type ℓ} (P Q : A → Type κ) (f : A → A) (xs : List A)
    → ((x : A) → P x → Q (f x))
    → All P xs
    → All Q (map f xs)
All-map P Q f [] h a = tt
All-map P Q f (x ∷ xs) h a = (h x a.0, All-map P Q f xs h a.1)

take-all {ℓ} : {A : Type ℓ} (n : ℕ) (xs : List A) → length xs ≤ n → take n xs ≡ xs
take-all zero [] h = refl
take-all zero (x ∷ xs) h = absurd (omega arith)
take-all (suc n) [] h = refl
take-all (suc n) (x ∷ xs) h = ap (λ l. x ∷ l) (take-all n xs (omega arith))

-- A kept dependency satisfies what all did, and the test.
All-kept {κ} :
    (P : String → Type κ) (p : String → Bool) (ds : List String)
    → All P ds
    → All (λ d. P d × (p d ≡ true)) (filter p ds)
All-kept P p [] a = tt
All-kept P p (d ∷ ds) a = elim (Bool-cases (p d)) [
  | inl e ↦ rw (e, filter) ((a.0, e), All-kept P p ds a.1)
  | inr e ↦ rw (e, filter) (All-kept P p ds a.1)
]

module _ (ids : List String) where
  ids_of-keep : (ss : List SubtaskSpec) → ids_of (map (keep_dependencies ids) ss) ≡ ids_of ss
  ids_of-keep [] = refl
  ids_of-keep (s ∷ ss) = ap (λ l. s.subtask_id ∷ l) (ids_of-keep ss)

  total_budget-keep :
      (ss : List SubtaskSpec) → total_budget (map (keep_dependencies ids) ss) ≡ total_budget ss
  unfolding total_budget
  total_budget-keep [] = refl
  total_budget-keep (s ∷ ss) = ap (λ n. s.token_budget + n) (total_budget-keep ss)

  length-keep : (ss : List SubtaskSpec) → length (map (keep_dependencies ids) ss) ≡ length ss
  length-keep [] = refl
  length-keep (s ∷ ss) = omega (arith, length-keep ss)

  keep-IsExecutable :
      (registry : AgentRegistry) (s : SubtaskSpec)
      → IsExecutable registry s
      → IsExecutable registry (keep_dependencies ids s)
  keep-IsExecutable registry s x = record {
    output = x.output;
    criteria = x.criteria;
    agent = x.agent;
    role = x.role;
  }

  keep-EachLink {κ} :
      (Q : String → String → Type κ) (ss : List SubtaskSpec)
      → EachLink Q ss
      → EachLink (λ d id. Q d id × (elem d ids ≡ true)) (map (keep_dependencies ids) ss)
  keep-EachLink Q [] a = tt
  keep-EachLink Q (s ∷ ss) a = (
    All-kept (λ d. Q d s.subtask_id) (λ d. elem d ids) s.dependencies a.0,
    keep-EachLink Q ss a.1,
  )

take-elem :
    (n : ℕ) (x : String) (xs : List SubtaskSpec)
    → elem x (ids_of xs) ≡ false
    → elem x (ids_of (take n xs)) ≡ false
take-elem zero x xs h = refl
take-elem (suc n) x [] h = refl
take-elem (suc n) x (y ∷ ys) h = ground (arith, take-elem n x ys)

take-AreDistinct :
    (n : ℕ) (xs : List SubtaskSpec) → AreDistinct (ids_of xs) → AreDistinct (ids_of (take n xs))
take-AreDistinct zero xs a = tt
take-AreDistinct (suc n) [] a = tt
take-AreDistinct (suc n) (x ∷ xs) a = (take-elem n x.subtask_id xs a.0, take-AreDistinct n xs a.1)

total_budget-take : (n : ℕ) (xs : List SubtaskSpec) → total_budget (take n xs) ≤ total_budget xs
unfolding total_budget
total_budget-take zero xs = omega arith
total_budget-take (suc n) [] = omega arith
total_budget-take (suc n) (x ∷ xs) = omega (arith, total_budget-take n xs)

-- The plan with the first `n` subtasks.
kept_valid :
    (n : ℕ) (plan : Plan) (registry : AgentRegistry) (budget : ℕ)
    → IsValidPlan plan registry budget none
    → IsValidPlan
        (record plan {
          subtasks = map (keep_dependencies (ids_of (take n plan.subtasks))) (take n plan.subtasks);
        })
        registry
        budget
        none
kept_valid n plan registry budget v =
    let kept = take n plan.subtasks in
    let ids = ids_of kept in
    let known : EachLink (λ d id. elem d (ids_of plan.subtasks) ≡ true) kept =
      All-take _ n plan.subtasks v.known in
    record {
      count = omega (arith, v.count, length-keep ids kept, length-take n plan.subtasks);
      in_envelope = tt;
      distinct =
          subst AreDistinct (sym (ids_of-keep ids kept))
            (take-AreDistinct n plan.subtasks v.distinct);
      fits =
          All-map (FitsEnvelope none) (FitsEnvelope none) (keep_dependencies ids) kept (λ x u. tt)
            (All-take (FitsEnvelope none) n plan.subtasks v.fits);
      known =
          EachLink-map (λ d id. (elem d (ids_of plan.subtasks) ≡ true) × (elem d ids ≡ true))
            (λ d id. elem d (ids_of (map (keep_dependencies ids) kept)) ≡ true)
            (map (keep_dependencies ids) kept)
            (λ d id h. subst (λ l. elem d l ≡ true) (sym (ids_of-keep ids kept)) h.1)
            (keep-EachLink ids (λ d id. elem d (ids_of plan.subtasks) ≡ true) kept known);
      ordered = (
        v.ordered.0,
        EachLink-map (λ d id. (v.ordered.0 d < v.ordered.0 id) × (elem d ids ≡ true))
            (λ d id. v.ordered.0 d < v.ordered.0 id) (map (keep_dependencies ids) kept)
            (λ d id h. h.0)
            (keep-EachLink ids (λ d id. v.ordered.0 d < v.ordered.0 id) kept
              (All-take _ n plan.subtasks v.ordered.1)),
      );
      affordable =
          omega
            (arith, v.affordable, total_budget-keep ids kept, total_budget-take n plan.subtasks);
      executable =
          All-map (IsExecutable registry) (IsExecutable registry) (keep_dependencies ids) kept
            (keep-IsExecutable ids registry)
            (All-take (IsExecutable registry) n plan.subtasks v.executable);
    }

-- A plan that is valid without an envelope stays valid when it is simplified for one, and then has
-- the first subtasks of the plan, as many as the envelope's bound allows.
pub simplification_valid :
    (plan : Plan) (envelope : PlanningEnvelope) (registry : AgentRegistry) (budget : ℕ)
    → IsValidPlan plan registry budget none
    → IsValidPlan (deterministic_simplification plan envelope) registry budget none
      × (length (deterministic_simplification plan envelope).subtasks
          ≡ min (length plan.subtasks) envelope.max_subtasks)
      × (ids_of (deterministic_simplification plan envelope).subtasks
          ≡ ids_of (take envelope.max_subtasks plan.subtasks))
unfolding deterministic_simplification
simplification_valid plan e registry budget v =
    elim (Bool-cases (leb (length plan.subtasks) e.max_subtasks)) [
      | inl h ↦
          rw h (
            v,
            ground arith,
            ap ids_of (sym (take-all e.max_subtasks plan.subtasks (ground arith))),
          )
      | inr h ↦
          let kept = take e.max_subtasks plan.subtasks in
          rw h (
            kept_valid e.max_subtasks plan registry budget v,
            ground
                (arith, length-keep (ids_of kept) kept, length-take e.max_subtasks plan.subtasks),
            ids_of-keep (ids_of kept) kept,
          )
    ]
