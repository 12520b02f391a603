-- ===== src/Flow/Merge.antt =====
-- The results of subtasks that are all of one state, merged into it: each takes its own place.
use ai_team_os.Prelude.{
  String, ◌≡◌, ◌≢◌, refl, ap, ◌∙◌, sym, subst, inl, inr, Bool, true, false, Option, none, some,
  List, [], ◌∷◌, ◌++◌, map, if◌then◌else◌, str_eq, eq_iff, elem, Dict, lookup, insert,
  lookup-insert, arith, All, Bool-cases, filter,
}
use mathlib.Core.List.{append-nil, append_assoc}
use ai_team_os.Plan.Validator.Spec.{AreDistinct}
use ai_team_os.Flow.Reducers.{insert_all, values, merge_by}

abbrev pub or_value {ℓ} : {A : Type ℓ} → Option A → A → A
or_value (some a) d = a
or_value none d = d

module _ {ℓ} {A : Type ℓ} (id_of : A → String) where
  put_in : A → A → A
  put_in r s = if str_eq (id_of s) (id_of r) then r else s

  -- A known id keeps its place.
  abbrev Knows : Dict A → A → Type ℓ
  Knows d r = lookup (id_of r) d ≢ none

  insert_new :
      (x : A) (d : Dict A)
      → lookup (id_of x) d ≡ none
      → insert (id_of x) x d ≡ d ++ (id_of x, x) ∷ []
  unfolding insert lookup
  insert_new x [] h = refl
  insert_new x ((k, v) ∷ d) h = ground (arith, h, insert_new x d)

  abbrev AreNew : Dict A → List A → Type ℓ
  AreNew d = All (λ x. lookup (id_of x) d ≡ none)

  pairs : List A → Dict A
  pairs xs = map (λ x. (id_of x, x)) xs

  new_stay :
      (x : A) (d : Dict A) (xs : List A)
      → elem (id_of x) (map id_of xs) ≡ false
      → AreNew d xs
      → AreNew (insert (id_of x) x d) xs
  new_stay x d [] h a = tt
  new_stay x d (y ∷ ys) h a = (
    ground (arith, lookup-insert (id_of x) (id_of y) x d, eq_iff (id_of x) (id_of y), h, a.0),
    new_stay x d ys (ground (arith, h)) a.1,
  )

  insert_all-new :
      (xs : List A) (d : Dict A)
      → AreDistinct (map id_of xs)
      → AreNew d xs
      → insert_all id_of xs d ≡ d ++ pairs xs
  unfolding insert_all pairs
  insert_all-new [] d h a = sym (append-nil d)
  insert_all-new (x ∷ xs) d h a =
      insert_all-new xs (insert (id_of x) x d) h.1 (new_stay x d xs h.0 a.1)
      ∙ rw (insert_new x d a.0) (append_assoc d ((id_of x, x) ∷ []) (pairs xs))

  values-pairs : (xs : List A) → values (pairs xs) ≡ xs
  unfolding pairs
  values-pairs [] = refl
  values-pairs (x ∷ xs) = ap (λ l. x ∷ l) (values-pairs xs)

  lookup-pairs :
      (k : String) (xs : List A) → lookup k (pairs xs) ≡ none → elem k (map id_of xs) ≡ false
  unfolding pairs lookup
  lookup-pairs k [] h = refl
  lookup-pairs k (x ∷ xs) h =
      ground (arith, h, lookup-pairs k xs, eq_iff (id_of x) k, eq_iff k (id_of x))

  -- Where no record has the id, none is replaced.
  put_in-none :
      (r : A) (xs : List A) → elem (id_of r) (map id_of xs) ≡ false → map (put_in r) xs ≡ xs
  unfolding put_in
  put_in-none r [] h = refl
  put_in-none r (x ∷ xs) h =
      ground (arith, h, put_in-none r xs, eq_iff (id_of x) (id_of r), eq_iff (id_of r) (id_of x))

  put_in-id : (r s : A) → id_of (put_in r s) ≡ id_of s
  unfolding put_in
  put_in-id r s = ground (arith, eq_iff (id_of s) (id_of r))

  -- One result goes to its place.
  insert-pairs :
      (r : A) (xs : List A)
      → AreDistinct (map id_of xs)
      → elem (id_of r) (map id_of xs) ≡ true
      → insert (id_of r) r (pairs xs) ≡ pairs (map (put_in r) xs)
  unfolding insert pairs put_in
  insert-pairs r [] d h = absurd (cc h)
  insert-pairs r (x ∷ xs) d h = elim (Bool-cases (str_eq (id_of x) (id_of r))) [
    | inl e ↦
        let same : id_of x ≡ id_of r = (eq_iff (id_of x) (id_of r)).0 e in
        let rest = put_in-none r xs (subst (λ k. elem k (map id_of xs) ≡ false) same d.0) in
        rw (e, rest, same) refl
    | inr e ↦ rw e (
        ap (λ l. (id_of x, x) ∷ l)
          (insert-pairs r xs d.1
            (ground (arith, h, eq_iff (id_of x) (id_of r), e, eq_iff (id_of r) (id_of x)))))
  ]

  map-put_in-id : (r : A) (xs : List A) → map id_of (map (put_in r) xs) ≡ map id_of xs
  map-put_in-id r [] = refl
  map-put_in-id r (x ∷ xs) = cc (put_in-id r x, map-put_in-id r xs)

  put_all : List A → List A → List A
  put_all [] xs = xs
  put_all (r ∷ rs) xs = put_all rs (map (put_in r) xs)

  insert_all-pairs :
      (rs xs : List A)
      → AreDistinct (map id_of xs)
      → All (λ r. elem (id_of r) (map id_of xs) ≡ true) rs
      → insert_all id_of rs (pairs xs) ≡ pairs (put_all rs xs)
  unfolding insert_all put_all
  insert_all-pairs [] xs d h = refl
  insert_all-pairs (r ∷ rs) xs d h = rw (insert-pairs r xs d h.0) (
      insert_all-pairs rs (map (put_in r) xs) (rw (map-put_in-id r xs) d)
        (rw (map-put_in-id r xs) h.1))

  put_all-skip :
      (y : A) (rs ys : List A)
      → All (λ r. str_eq (id_of y) (id_of r) ≡ false) rs
      → put_all rs (y ∷ ys) ≡ y ∷ put_all rs ys
  unfolding put_all put_in
  put_all-skip y [] ys a = refl
  put_all-skip y (r ∷ rs) ys a = rw a.0 (put_all-skip y rs (map (put_in r) ys) a.1)

  module _ (e : A → A) (q : A → Bool) (same : (x : A) → id_of (e x) ≡ id_of x) where
    other_ids :
        (k : String) (xs : List A)
        → elem k (map id_of xs) ≡ false
        → All (λ r. str_eq k (id_of r) ≡ false) (map e (filter q xs))
    other_ids k [] h = tt
    other_ids k (x ∷ xs) h = elim (Bool-cases (q x)) [
      | inl y ↦ rw (y, filter) (ground (arith, same x, h), other_ids k xs (ground (arith, h)))
      | inr n ↦ rw (n, filter) (other_ids k xs (ground (arith, h)))
    ]

    -- The results of some of the subtasks take their places.
    put_all-step :
        (xs : List A)
        → AreDistinct (map id_of xs)
        → put_all (map e (filter q xs)) xs ≡ map (λ x. if q x then e x else x) xs
    unfolding put_all put_in
    put_all-step [] d = refl
    put_all-step (x ∷ xs) d =
        let rest = put_all-step xs d.1 in
        elim (Bool-cases (q x)) [
          | inr n ↦
              rw (n, filter)
                (put_all-skip x (map e (filter q xs)) xs (other_ids (id_of x) xs d.0)
                  ∙ ap (λ l. x ∷ l) rest)
          | inl y ↦
              let here : put_in (e x) x ≡ e x =
                rw ((eq_iff (id_of x) (id_of (e x))).1 (sym (same x))) refl in
              let there : map (put_in (e x)) xs ≡ xs =
                put_in-none (e x) xs
                  (subst (λ k. elem k (map id_of xs) ≡ false) (sym (same x)) d.0) in
              let placed : put_in (e x) x ∷ map (put_in (e x)) xs ≡ e x ∷ xs = cc (here, there) in
              let others =
                subst (λ k. All (λ r. str_eq k (id_of r) ≡ false) (map e (filter q xs)))
                  (sym (same x)) (other_ids (id_of x) xs d.0) in
              rw (y, filter)
                (ap (put_all (map e (filter q xs))) placed
                  ∙ put_all-skip (e x) (map e (filter q xs)) xs others
                  ∙ ap (λ l. e x ∷ l) rest)
        ]

  knows_more :
      (k : String) (ks : List String) (rs : List A)
      → All (λ r. elem (id_of r) ks ≡ true) rs
      → All (λ r. elem (id_of r) (k ∷ ks) ≡ true) rs
  knows_more k ks [] a = tt
  knows_more k ks (r ∷ rs) a = (ground (arith, a.0), knows_more k ks rs a.1)

  known_ids :
      (e : A → A) (q : A → Bool) (same : (x : A) → id_of (e x) ≡ id_of x) (xs : List A)
      → All (λ r. elem (id_of r) (map id_of xs) ≡ true) (map e (filter q xs))
  known_ids e q same [] = tt
  known_ids e q same (x ∷ xs) =
      let rest =
        knows_more (id_of x) (map id_of xs) (map e (filter q xs)) (known_ids e q same xs) in
      elim (Bool-cases (q x)) [
        | inl y ↦ rw (y, filter) (ground (arith, same x, eq_iff (id_of (e x)) (id_of x)), rest)
        | inr n ↦ rw (n, filter) rest
      ]

  all_new : (xs : List A) → AreNew [] xs
  unfolding lookup
  all_new [] = tt
  all_new (x ∷ xs) = (refl, all_new xs)

  -- When the records differ in their ids, the results of some of them take the places of these.
  pub merge_by-map :
      (e : A → A) (q : A → Bool) (xs : List A)
      → ((x : A) → id_of (e x) ≡ id_of x)
      → AreDistinct (map id_of xs)
      → merge_by id_of xs (map e (filter q xs)) ≡ map (λ x. if q x then e x else x) xs
  unfolding merge_by
  merge_by-map e q xs same d =
      let rs = map e (filter q xs) in
      ap (λ dict. values (insert_all id_of rs dict)) (insert_all-new xs [] d (all_new xs))
      ∙ ap values (insert_all-pairs rs xs d (known_ids e q same xs))
      ∙ values-pairs (put_all rs xs)
      ∙ put_all-step e q same xs d
