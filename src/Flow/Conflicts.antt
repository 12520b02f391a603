-- ===== src/Flow/Conflicts.antt =====
-- Two executions give a reason to replan only when a subtask of the plan has no worker.
use ai_team_os.Prelude.{
  String, ◌≡◌, refl, subst, ap, ◌∙◌, Bool, true, false, not, ◌||◌, Option, none, some, List, [],
  ◌∷◌, map, any, filter, length, ltb, str_eq, if◌then◌else◌, arith, Bool-cases, Option-cases, inl,
  inr,
}
use ai_team_os.Plan.Schemas.{SubtaskSpec}
use ai_team_os.Flow.Defs.{SubtaskState}
use ai_team_os.Flow.Execute.{Workers, exec_subtask}
use ai_team_os.Flow.Rounds.{is_sent, reasons, clash}

abbrev is_some {ℓ} : {A : Type ℓ} → Option A → Bool
is_some none = false
is_some (some a) = true

-- The role is that of an executor, and there is none, or a role that nobody works in.
abbrev pub cannot_run : Workers → SubtaskSpec → Bool
cannot_run w spec =
    if str_eq spec.assigned_role "executor"
    then not (is_some w.executor)
    else not (str_eq spec.assigned_role "researcher")

gives_reason :
    (w : Workers) (all : List SubtaskState) (s : SubtaskState)
    → is_some (exec_subtask w all s).1 ≡ true
    → cannot_run w s.spec ≡ true
unfolding exec_subtask
gives_reason w all s h = ground arith

or_left : (a b : Bool) → a ≡ true → (a || b) ≡ true
or_left a b h = ground arith

or_right : (a b : Bool) → b ≡ true → (a || b) ≡ true
or_right a b h = ground arith

filter-kept {ℓ} :
    {A : Type ℓ} (p : A → Bool) (x : A) (xs : List A)
    → p x ≡ true
    → filter p (x ∷ xs) ≡ x ∷ filter p xs
filter-kept p x xs h = ground (arith, h)

filter-dropped {ℓ} :
    {A : Type ℓ} (p : A → Bool) (x : A) (xs : List A)
    → p x ≡ false
    → filter p (x ∷ xs) ≡ filter p xs
filter-dropped p x xs h = ground (arith, h)

reasons-none :
    (w : Workers) (all : List SubtaskState) (s : SubtaskState) (ss : List SubtaskState)
    → (exec_subtask w all s).1 ≡ none
    → reasons w all (s ∷ ss) ≡ reasons w all ss
unfolding reasons
reasons-none w all s ss h = ground (arith, h)

some_reason :
    (w : Workers) (all : List SubtaskState) (p : SubtaskState → Bool) (ss : List SubtaskState)
    → ltb 0 (length (reasons w all (filter p ss))) ≡ true
    → any (cannot_run w) (map (λ (s : SubtaskState). s.spec) ss) ≡ true
unfolding reasons
some_reason w all p [] h = cc h
some_reason w all p (s ∷ ss) h = elim (Bool-cases (p s)) [
  | inl e ↦ elim (Option-cases (exec_subtask w all s).1) [
    | inl n ↦ or_right _ _ (
        some_reason w all p ss (
          subst (λ l. ltb 0 (length l) ≡ true)
            (ap (reasons w all) (filter-kept p s ss e) ∙ reasons-none w all s (filter p ss) n) h))
    | inr (r, n) ↦ or_left _ _ (gives_reason w all s (rw n refl))
  ]
  | inr e ↦ or_right _ _ (
      some_reason w all p ss
        (subst (λ l. ltb 0 (length (reasons w all l)) ≡ true) (filter-dropped p s ss e) h))
]

-- A clash is the work of a subtask without a worker.
pub clash-cannot_run :
    (w : Workers) (ids : List String) (ss : List SubtaskState)
    → clash w ids ss ≡ true
    → any (cannot_run w) (map (λ (s : SubtaskState). s.spec) ss) ≡ true
unfolding clash
clash-cannot_run w ids ss h =
    some_reason w ss (is_sent ids) ss (more (length (reasons w ss (filter (is_sent ids) ss))) h)
  where
    more : (n : _) → ltb 1 n ≡ true → ltb 0 n ≡ true
    more n h = ground arith
