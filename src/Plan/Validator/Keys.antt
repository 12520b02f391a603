-- ===== src/Plan/Validator/Keys.antt =====
-- The keys of a dict, and the nodes that start in the queue.
use ai_team_os.Prelude.{
  ℕ, suc, String, ◌≡◌, refl, ap, true, false, ◌&&◌, ◌||◌, some, List, [], ◌∷◌, if◌then◌else◌,
  str_eq, eq_iff, elem, length, arith, inl, inr, Bool-cases, Dict, lookup, insert, lookup-insert,
  ◌==◌,
}
use ai_team_os.Plan.Validator.Defs.{degree, targets, ready}
use ai_team_os.Plan.Validator.Counting.{one_if, occ, elem-occ, not_elem-occ}

unfoldable pub keys {ℓ} : {V : Type ℓ} → Dict V → List String
keys [] = []
keys ((k, v) ∷ d) = k ∷ keys d

pub length-keys {ℓ} : {V : Type ℓ} (d : Dict V) → length (keys d) ≡ length d
unfolding keys
length-keys [] = refl
length-keys ((k, v) ∷ d) = ap suc (length-keys d)

pub keys-insert_old {ℓ} :
    {V : Type ℓ} (k : String) (x : V) (d : Dict V)
    → elem k (keys d) ≡ true
    → keys (insert k x d) ≡ keys d
unfolding keys insert
keys-insert_old k x [] h = absurd (cc)
keys-insert_old k x ((j, y) ∷ d) h = elim (Bool-cases (str_eq j k)) [
  | inl e ↦ rw e refl
  | inr e ↦
      let other : elem k (keys d) ≡ true = ground (arith, eq_iff k j, eq_iff j k) in
      rw e (ap (λ l. j ∷ l) (keys-insert_old k x d other))
]

pub elem-keys-insert {ℓ} :
    {V : Type ℓ} (k v : String) (x : V) (d : Dict V)
    → elem v (keys (insert k x d)) ≡ (elem v (keys d) || str_eq v k)
unfolding keys insert
elem-keys-insert k v x [] = ground arith
elem-keys-insert k v x ((j, y) ∷ d) =
    ground (arith, elem-keys-insert k v x d, eq_iff j k, eq_iff v j, eq_iff v k)

-- No key stands twice.
abbrev pub HasDistinctKeys {ℓ} : {V : Type ℓ} → Dict V → Type 0
HasDistinctKeys d = (v : String) → occ v (keys d) ≡ one_if (elem v (keys d))

HasDistinctKeys-tail {ℓ} :
    {V : Type ℓ} (j : String) (y : V) (d : Dict V)
    → HasDistinctKeys ((j, y) ∷ d)
    → HasDistinctKeys d
unfolding keys occ
HasDistinctKeys-tail j y d h v = ground (arith, h v, elem-occ v (keys d), not_elem-occ v (keys d))

HasDistinctKeys-head {ℓ} :
    {V : Type ℓ} (j : String) (y : V) (d : Dict V)
    → HasDistinctKeys ((j, y) ∷ d)
    → elem j (keys d) ≡ false
unfolding keys occ
HasDistinctKeys-head j y d h = ground (arith, h j, elem-occ j (keys d), eq_iff j j)

pub insert-HasDistinctKeys {ℓ} :
    {V : Type ℓ} (k : String) (x : V) (d : Dict V)
    → HasDistinctKeys d
    → HasDistinctKeys (insert k x d)
unfolding keys insert occ
insert-HasDistinctKeys k x [] h v = ground arith
insert-HasDistinctKeys k x ((j, y) ∷ d) h v = elim (Bool-cases (str_eq j k)) [
  | inl e ↦ rw e (h v)
  | inr e ↦
      let ih = insert-HasDistinctKeys k x d (HasDistinctKeys-tail j y d h) v in
      rw e (
        ground (
          arith,
          ih,
          elem-keys-insert k v x d,
          HasDistinctKeys-head j y d h,
          eq_iff v j,
          eq_iff v k,
          eq_iff j k,
        ))
]

pub elem_of_lookup {ℓ} :
    {V : Type ℓ} (k : String) (x : V) (d : Dict V) → lookup k d ≡ some x → elem k (keys d) ≡ true
unfolding keys lookup
elem_of_lookup k x [] h = cc
elem_of_lookup k x ((j, y) ∷ d) h = ground (arith, elem_of_lookup k x d, eq_iff j k, eq_iff k j)

pub lookup_of_elem {ℓ} :
    {V : Type ℓ} (k : String) (d : Dict V)
    → elem k (keys d) ≡ true
    → (x : V) × (lookup k d ≡ some x)
unfolding keys lookup
lookup_of_elem k [] h = cc
lookup_of_elem k ((j, y) ∷ d) h = elim (Bool-cases (str_eq j k)) [
  | inl e ↦ (y, rw e)
  | inr e ↦
      let other : elem k (keys d) ≡ true = ground (arith, eq_iff k j, eq_iff j k) in
      let (x, p) = lookup_of_elem k d other in (x, rw e p)
]

pub degree-insert :
    (k v : String) (n : ℕ) (d : Dict ℕ)
    → degree v (insert k n d) ≡ (if str_eq k v then n else degree v d)
degree-insert k v n d = ground (arith, lookup-insert k v n d)

pub targets-insert :
    (k v : String) (l : List String) (d : Dict (List String))
    → targets v (insert k l d) ≡ (if str_eq k v then l else targets v d)
targets-insert k v l d = ground (arith, lookup-insert k v l d)

-- The queue starts with the keys whose degree is 0, each once.
pub occ-ready :
    (v : String) (d : Dict ℕ)
    → HasDistinctKeys d
    → occ v (ready d) ≡ one_if (elem v (keys d) && (degree v d == 0))
unfolding keys lookup ready occ
occ-ready v [] h = refl
occ-ready v ((k, n) ∷ d) h =
    let ih = occ-ready v d (HasDistinctKeys-tail k n d h) in
    ground (arith, ih, HasDistinctKeys-head k n d h, eq_iff v k, eq_iff k v)
