-- ===== src/Flow/Reducers.antt =====
-- The reducers of app/core/state.py, which join what a node returns with the state. A record is
-- keyed by its id, as a dict keeps it: a known id keeps its place and takes the new value.
use ai_team_os.Prelude.{
  String, ◌≡◌, refl, ap, ◌∙◌, sym, ◌⊎◌, inl, inr, Option, none, some, List, [], ◌∷◌, ◌++◌,
  if◌then◌else◌, str_eq, eq_iff, Dict, lookup, insert, lookup-insert, arith, Bool-cases,
}

module _ {ℓ} {A : Type ℓ} (id_of : A → String) where
  -- `for x in xs: merged[id(x)] = x`
  unfoldable pub insert_all : List A → Dict A → Dict A
  insert_all [] d = d
  insert_all (x ∷ xs) d = insert_all xs (insert (id_of x) x d)

abbrev pub values {ℓ} : {A : Type ℓ} → Dict A → List A
values [] = []
values ((k, v) ∷ d) = v ∷ values d

-- `merge_subtasks`, `merge_tool_calls` and `merge_evidence`, by the id of each.
unfoldable pub merge_by {ℓ} : {A : Type ℓ} → (A → String) → List A → List A → List A
unfolding insert_all
merge_by id_of left right = values (insert_all id_of right (insert_all id_of left []))

-- list(dict.fromkeys(keys))
unfoldable pub add_keys : List String → Dict (Unit {0}) → Dict (Unit {0})
add_keys [] d = d
add_keys (k ∷ ks) d = add_keys ks (insert k tt d)

abbrev pub keys {ℓ} : {A : Type ℓ} → Dict A → List String
keys [] = []
keys ((k, v) ∷ d) = k ∷ keys d

unfoldable pub merge_keys : List String → List String → List String
unfolding add_keys
merge_keys left right = keys (add_keys (left ++ right) [])

-- `{id(x): x for x in xs}.get(id)`: the last one with that id.
unfoldable pub last_with {ℓ} : {A : Type ℓ} → (A → String) → String → List A → Option A
last_with id_of k [] = none
last_with id_of k (x ∷ xs) =
    let rest = last_with id_of k xs in
    elim rest [ some y ↦ some y | none ↦ if str_eq (id_of x) k then some x else none ]

abbrev pub or_else {ℓ} : {A : Type ℓ} → Option A → Option A → Option A
or_else (some a) o = some a
or_else none o = o

or_else-none {ℓ} : {A : Type ℓ} (o : Option A) → or_else o none ≡ o
or_else-none (some a) = refl
or_else-none none = refl

module _ {ℓ} {A : Type ℓ} (id_of : A → String) (k : String) where
  lookup-insert_all :
      (xs : List A) (d : Dict A)
      → lookup k (insert_all id_of xs d) ≡ or_else (last_with id_of k xs) (lookup k d)
  unfolding insert_all last_with
  lookup-insert_all [] d = refl
  lookup-insert_all (x ∷ xs) d =
      lookup-insert_all xs (insert (id_of x) x d) ∙ ground (arith, lookup-insert (id_of x) k x d)

-- The entries of a dict are under the ids of their values, and no id is there twice.
abbrev pub IsKeyed {ℓ} : {A : Type ℓ} → (A → String) → Dict A → Type ℓ
IsKeyed id_of [] = Unit
IsKeyed id_of ((k, v) ∷ d) = (id_of v ≡ k) × (lookup k d ≡ none) × IsKeyed id_of d

module _ {ℓ} {A : Type ℓ} (id_of : A → String) where
  insert-IsKeyed : (v : A) (d : Dict A) → IsKeyed id_of d → IsKeyed id_of (insert (id_of v) v d)
  unfolding insert lookup
  insert-IsKeyed v [] h = (refl, refl, tt)
  insert-IsKeyed v ((k, w) ∷ d) h = elim (Bool-cases (str_eq k (id_of v))) [
    | inl e ↦ rw e (sym ((eq_iff k (id_of v)).0 e), h.1, h.2)
    | inr e ↦ rw e (
      h.0,
      ground (arith, lookup-insert (id_of v) k v d, eq_iff (id_of v) k, eq_iff k (id_of v), e, h.1),
      insert-IsKeyed v d h.2,
    )
  ]

  insert_all-IsKeyed :
      (xs : List A) (d : Dict A) → IsKeyed id_of d → IsKeyed id_of (insert_all id_of xs d)
  unfolding insert_all
  insert_all-IsKeyed [] d h = h
  insert_all-IsKeyed (x ∷ xs) d h =
      insert_all-IsKeyed xs (insert (id_of x) x d) (insert-IsKeyed x d h)

  last_with-values :
      (k : String) (d : Dict A) → IsKeyed id_of d → last_with id_of k (values d) ≡ lookup k d
  unfolding last_with lookup
  last_with-values k [] h = refl
  last_with-values k ((j, v) ∷ d) h =
      ground (arith, last_with-values k d h.2, h.0, h.1, eq_iff j k, eq_iff (id_of v) k)

  last_with-merge_by :
      (left right : List A) (k : String)
      → last_with id_of k (merge_by id_of left right)
        ≡ or_else (last_with id_of k right) (last_with id_of k left)
  unfolding merge_by lookup
  last_with-merge_by left right k =
      let first = insert_all id_of left [] in
      last_with-values k (insert_all id_of right first)
        (insert_all-IsKeyed right first (insert_all-IsKeyed left [] tt))
      ∙ lookup-insert_all id_of k right first
      ∙ ap (or_else (last_with id_of k right))
          (lookup-insert_all id_of k left [] ∙ or_else-none (last_with id_of k left))

  -- A merge is that of finite maps: under each id there is the last record of the right side, or
  -- else that of the left side. Two results that share no id may come in either order, and a result
  -- that comes twice counts once.
  pub merge_by_lem :
      (left right other : List A) (k : String)
      → (last_with id_of k (merge_by id_of left right)
          ≡ or_else (last_with id_of k right) (last_with id_of k left))
        × ((last_with id_of k right ≡ none) ⊎ (last_with id_of k other ≡ none)
            → last_with id_of k (merge_by id_of (merge_by id_of left right) other)
              ≡ last_with id_of k (merge_by id_of (merge_by id_of left other) right))
        × (last_with id_of k (merge_by id_of (merge_by id_of left right) right)
            ≡ last_with id_of k (merge_by id_of left right))
  merge_by_lem left right other k = (
    last_with-merge_by left right k,
    λ h. ground (
      arith,
      last_with-merge_by (merge_by id_of left right) other k,
      last_with-merge_by (merge_by id_of left other) right k,
      last_with-merge_by left right k,
      last_with-merge_by left other k,
    ),
    ground (
      arith,
      last_with-merge_by (merge_by id_of left right) right k,
      last_with-merge_by left right k,
    ),
  )
