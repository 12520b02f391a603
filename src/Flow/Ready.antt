-- ===== src/Flow/Ready.antt =====
-- The subtasks that are ready, and why there can be none.
use ai_team_os.Prelude.{
  ℕ, zero, suc, ◌<◌, String, ◌≡◌, ◌≢◌, refl, ap, subst, ◌∙◌, ◌⊎◌, inl, inr, Bool, true, false, none,
  some, List, [], ◌∷◌, map, if◌then◌else◌, str_eq, eq_iff, is_nil, elem, filter, All, arith,
  Bool-cases, Option-cases,
}
use ai_team_os.Plan.Envelope.{ids_of}
use ai_team_os.Flow.Defs.{SubtaskState, is_passed}
use ai_team_os.Flow.Routes.{by_id, all_passed, ready_among}

by_id-elem :
    (d : String) (ss : List SubtaskState)
    → elem d (ids_of (map (λ (s : SubtaskState). s.spec) ss)) ≡ true
    → by_id d ss ≢ none
unfolding by_id
by_id-elem d [] h e = cc
by_id-elem d (s ∷ ss) h e =
    ground (arith, h, e, by_id-elem d ss, eq_iff s.spec.subtask_id d, eq_iff d s.spec.subtask_id)

-- The head of the list is found only when no later subtask has the id.
by_id-cons :
    (d : String) (s t : SubtaskState) (ss : List SubtaskState)
    → by_id d (s ∷ ss) ≡ some t
    → (by_id d ss ≡ some t) ⊎ ((s.spec.subtask_id ≡ d) × (s ≡ t))
unfolding by_id
by_id-cons d s t ss h = elim (Option-cases (by_id d ss)) [
  | inr (u, e) ↦ inl (e ∙ rw e at h)
  | inl n ↦ elim (Bool-cases (str_eq s.spec.subtask_id d)) [
    | inl same ↦ inr ((eq_iff s.spec.subtask_id d).0 same, cc (rw (n, same) at h))
    | inr other ↦ absurd (cc (rw (n, other) at h))
  ]
]

-- What holds of every subtask holds of the one that `by_id` finds.
by_id-All {κ} :
    (P : SubtaskState → Type κ) (d : String) (t : SubtaskState) (ss : List SubtaskState)
    → All P ss
    → by_id d ss ≡ some t
    → P t × (t.spec.subtask_id ≡ d)
unfolding by_id
by_id-All P d t [] a h = absurd (cc h)
by_id-All P d t (s ∷ ss) a h = elim (by_id-cons d s t ss h) [
  | inl e ↦ by_id-All P d t ss a.1 e
  | inr (e, same) ↦ (subst P same a.0, subst (λ (u : SubtaskState). u.spec.subtask_id ≡ d) same e)
]

by_id-found {κ} :
    (P : SubtaskState → Type κ) (d : String) (ss : List SubtaskState)
    → All P ss
    → elem d (ids_of (map (λ (s : SubtaskState). s.spec) ss)) ≡ true
    → (t : SubtaskState) × (by_id d ss ≡ some t) × P t × (t.spec.subtask_id ≡ d)
by_id-found P d ss a h = elim (Option-cases (by_id d ss)) [
  | inl n ↦ absurd (by_id-elem d ss h n)
  | inr (t, e) ↦ let (p, same) = by_id-All P d t ss a e in (t, e, p, same)
]

pub filter-all {ℓ} :
    {A : Type ℓ} (p : A → Bool) (xs : List A) → All (λ x. p x ≡ true) xs → filter p xs ≡ xs
filter-all p [] a = refl
filter-all p (x ∷ xs) a = rw (a.0, filter) (ap (λ l. x ∷ l) (filter-all p xs a.1))

all_passed-cons :
    (table : List SubtaskState) (d : String) (ds : List String) (t : SubtaskState)
    → by_id d table ≡ some t
    → all_passed table (d ∷ ds)
      ≡ (if is_passed t.runtime_status then all_passed table ds else some false)
unfolding all_passed
all_passed-cons table d ds t h = rw (h, all_passed) refl

module _ (number : String → ℕ) (table : List SubtaskState) where
  -- A dependency of a subtask with number `n`.
  abbrev pub Below : ℕ → String → Type 0
  Below n d = (elem d (ids_of (map (λ (s : SubtaskState). s.spec) table)) ≡ true) × (number d < n)

  -- Either all dependencies have passed, or one of them is below and has not.
  pub passed_or_blocked {κ} :
      (P : SubtaskState → Type κ) (n : ℕ) (ds : List String)
      → All P table
      → All (Below n) ds
      → (all_passed table ds ≡ some true)
        ⊎ ((all_passed table ds ≡ some false)
            × ((t : SubtaskState) × P t
                × (is_passed t.runtime_status ≡ false)
                × (number t.spec.subtask_id < n)))
  unfolding all_passed
  passed_or_blocked P n [] a b = inl refl
  passed_or_blocked P n (d ∷ ds) a b =
      let (t, found, p, same) = by_id-found P d table a b.0.0 in
      elim (Bool-cases (is_passed t.runtime_status)) [
        | inr waits ↦ inr (
          all_passed-cons table d ds t found ∙ rw waits refl,
          (t, p, waits, ground (arith, b.0.1, ap number same)),
        )
        | inl done ↦
            let step : all_passed table (d ∷ ds) ≡ all_passed table ds =
              all_passed-cons table d ds t found ∙ rw done refl in
            elim (passed_or_blocked P n ds a b.1) [
              | inl e ↦ inl (step ∙ e)
              | inr (e, blocker) ↦ inr (step ∙ e, blocker)
            ]
      ]

-- The ids that are ready, and that there is none only when every admitted subtask is blocked.
pub ready_among-nil :
    (admits : SubtaskState → Bool) (table ss : List SubtaskState)
    → All (λ (s : SubtaskState). all_passed table s.spec.dependencies ≢ none) ss
    → (ids : List String) × (ready_among admits table ss ≡ some ids)
      × (is_nil ids ≡ true
          → All
              (λ (s : SubtaskState).
                admits s ≡ true → all_passed table s.spec.dependencies ≡ some false)
              ss)
unfolding ready_among
ready_among-nil admits table [] a = ([], refl, λ h. tt)
ready_among-nil admits table (s ∷ ss) a =
    let (ids, e, blocked) = ready_among-nil admits table ss a.1 in
    elim (Bool-cases (admits s)) [
      | inr out ↦ (ids, rw out e, λ h. ((λ u. absurd (ground (arith, out, u))), blocked h))
      | inl fits ↦ elim (Option-cases (all_passed table s.spec.dependencies)) [
        | inl n ↦ absurd (a.0 n)
        | inr (true, q) ↦ (s.spec.subtask_id ∷ ids, rw (fits, q, e) refl, λ h. absurd (cc))
        | inr (false, q) ↦ (ids, rw (fits, q, e) refl, λ h. ((λ u. q), blocked h))
      ]
    ]

-- What is known of a subtask of a valid plan when nothing is ready.
pub record IsBlocked (number : String → ℕ) (admits : SubtaskState → Bool)
    (table : List SubtaskState) (s : SubtaskState) : Type 0 where
  pub links : All (Below number table (number s.spec.subtask_id)) s.spec.dependencies
  pub admitted : is_passed s.runtime_status ≡ false → admits s ≡ true
  pub blocked : admits s ≡ true → all_passed table s.spec.dependencies ≡ some false

-- By induction on a bound of its number, such a subtask has passed.
pub descend :
    (number : String → ℕ) (admits : SubtaskState → Bool) (table : List SubtaskState)
    → All (IsBlocked number admits table) table
    → (n : ℕ) (s : SubtaskState) → IsBlocked number admits table s
    → number s.spec.subtask_id < n
    → is_passed s.runtime_status ≡ true
descend number admits table all zero s b h = absurd (omega (arith, h))
descend number admits table all (suc n) s b h = elim (Bool-cases (is_passed s.runtime_status)) [
  | inl y ↦ y
  | inr waits ↦
      let stuck = b.blocked (b.admitted waits) in
      elim (passed_or_blocked number table (IsBlocked number admits table)
        (number s.spec.subtask_id) s.spec.dependencies all b.links) [
          | inl e ↦ absurd (cc (stuck, e))
          | inr (e, (t, p, unpassed, less)) ↦ absurd (
              ground
                (arith, descend number admits table all n t p (omega (arith, less, h)), unpassed))
        ]
]
