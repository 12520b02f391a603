-- ===== src/Plan/Validator/Links.antt =====
-- The links of a list of subtasks, counted and one by one, and the order of the visits.
use ai_team_os.Prelude.{
  ℕ, suc, ◌+◌, ◌≤◌, ◌<◌, String, ◌≡◌, refl, ap, true, List, [], ◌∷◌, if◌then◌else◌, str_eq, eq_iff,
  elem, length, All, arith, inl, inr, Bool-cases, ◌==◌,
}
use ai_team_os.Plan.Schemas.{SubtaskSpec}
use ai_team_os.Plan.Validator.Counting.{occ, elem-occ}
use ai_team_os.Plan.Validator.Build.{Link, links, links_of, link_count}
use ai_team_os.Plan.Validator.Kahn.{pending, IsOrdered}

count-links_of :
    (u v id : String) (ds : List String) (p : List Link)
    → link_count u v (links_of id ds p) ≡ link_count u v p + (if str_eq v id then occ u ds else 0)
unfolding link_count occ
count-links_of u v id [] p = ground arith
count-links_of u v id (d ∷ ds) p =
    ground (arith, count-links_of u v id ds ((d, id) ∷ p), eq_iff d u, eq_iff u d)

count-le-links :
    (u v : String) (ss : List SubtaskSpec) (p : List Link)
    → link_count u v p ≤ link_count u v (links ss p)
count-le-links u v [] p = omega arith
count-le-links u v (s ∷ ss) p = ground (
  arith,
  count-le-links u v ss (links_of s.subtask_id s.dependencies p),
  count-links_of u v s.subtask_id s.dependencies p,
)

-- What holds of each dependency of each subtask.
abbrev pub EachLink {ℓ} : (String → String → Type ℓ) → List SubtaskSpec → Type ℓ
EachLink Q = All (λ (s : SubtaskSpec). All (λ d. Q d s.subtask_id) s.dependencies)

All-of-occ {ℓ} :
    (P : String → Type ℓ) (ds : List String) → ((d : String) → 0 < occ d ds → P d) → All P ds
unfolding occ
All-of-occ P [] h = tt
All-of-occ P (d ∷ ds) h =
    (h d (ground (arith, eq_iff d d)), All-of-occ P ds (λ e q. h e (omega arith)))

occ-of-All {ℓ} :
    (P : String → Type ℓ) (ds : List String) → All P ds → (d : String) → 0 < occ d ds → P d
unfolding occ
occ-of-All P [] a d h = absurd (omega arith)
occ-of-All P (e ∷ ds) a d h = elim (Bool-cases (str_eq d e)) [
  | inl q ↦ rw ((eq_iff d e).0 q) a.0
  | inr q ↦ occ-of-All P ds a.1 d (ground arith)
]

pub EachLink-of-count {ℓ} :
    (Q : String → String → Type ℓ) (ss : List SubtaskSpec) (p : List Link)
    → ((u v : String) → 0 < link_count u v (links ss p) → Q u v)
    → EachLink Q ss
EachLink-of-count Q [] p h = tt
EachLink-of-count Q (s ∷ ss) p h =
    let id = s.subtask_id in
    let q = links_of id s.dependencies p in
    (
      All-of-occ (λ d. Q d id) s.dependencies
          (λ d pos. h d id (
            ground (
              arith,
              count-le-links d id ss q,
              count-links_of d id id s.dependencies p,
              eq_iff id id,
            ))),
      EachLink-of-count Q ss q h,
    )

pub count-of-EachLink {ℓ} :
    (Q : String → String → Type ℓ) (ss : List SubtaskSpec) (p : List Link)
    → EachLink Q ss
    → ((u v : String) → 0 < link_count u v p → Q u v)
    → (u v : String) → 0 < link_count u v (links ss p)
    → Q u v
count-of-EachLink Q [] p a h u v pos = h u v pos
count-of-EachLink Q (s ∷ ss) p a h x y more =
    let id = s.subtask_id in
    count-of-EachLink Q ss (links_of id s.dependencies p) a.1
      (λ u v pos. elim (Bool-cases (str_eq v id)) [
        | inl e ↦ elim (Bool-cases (0 == link_count u v p)) [
          | inl z ↦ rw ((eq_iff v id).0 e) (
              occ-of-All (λ d. Q d id) s.dependencies a.0 u
                (ground (arith, count-links_of u v id s.dependencies p)))
          | inr z ↦ h u v (ground arith)
        ]
        | inr e ↦ h u v (ground (arith, count-links_of u v id s.dependencies p))
      ])
      x y more

pending_zero-elem :
    (done : List String) (u v : String) (p : List Link)
    → pending done v p ≡ 0
    → 0 < link_count u v p
    → elem u done ≡ true
unfolding pending link_count
pending_zero-elem done u v [] z h = absurd (omega arith)
pending_zero-elem done u v ((d, id) ∷ p) z h =
    ground (arith, pending_zero-elem done u v p, eq_iff d u, eq_iff v id, eq_iff id v)

pub pending_zero :
    (done : List String) (v : String) (p : List Link)
    → ((u : String) → 0 < link_count u v p → elem u done ≡ true)
    → pending done v p ≡ 0
unfolding pending link_count
pending_zero done v [] h = refl
pending_zero done v ((d, id) ∷ p) h = ground (
  arith,
  pending_zero done v p (λ u pos. h u (omega arith)),
  h d,
  eq_iff d d,
  eq_iff id v,
  eq_iff v id,
)

-- The place of a node in the order of the visits.
unfoldable pub place : String → List String → ℕ
place v [] = 0
place v (w ∷ done) = if str_eq v w then suc (length done) else place v done

place-le : (v : String) (done : List String) → place v done ≤ length done
unfolding place
place-le v [] = omega arith
place-le v (w ∷ done) = ground (arith, place-le v done)

pub place-lt :
    (p : List Link) (done : List String) (u v : String)
    → IsOrdered p done
    → ((w : String) → occ w done ≤ 1)
    → elem v done ≡ true
    → 0 < link_count u v p
    → (elem u done ≡ true) × (place u done < place v done)
unfolding place occ
place-lt p [] u v o d m h = absurd (cc)
place-lt p (w ∷ done) u v o d m h = elim (Bool-cases (str_eq v w)) [
  | inl e ↦
      let v_is_w = (eq_iff v w).0 e in
      let u_in : elem u done ≡ true = pending_zero-elem done u w p o.0 (rw (← v_is_w) h) in
      (
        ground arith,
        ground (
          arith,
          d w,
          elem-occ u done u_in,
          place-le u done,
          eq_iff w w,
          eq_iff u w,
          ap (λ x. occ x done) v_is_w,
        ),
      )
  | inr e ↦
      let (u_in, below) = place-lt p done u v o.1 (λ x. ground (arith, d x)) (ground arith) h in
      (ground arith, ground (arith, d w, elem-occ u done u_in, eq_iff w w, eq_iff u w))
]
