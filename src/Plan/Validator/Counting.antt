-- ===== src/Plan/Validator/Counting.antt =====
-- How often a text stands in a list, and inclusion of lists counted so.
use ai_team_os.Prelude.{
  ℕ, suc, ◌+◌, ◌≤◌, ◌<◌, String, ◌≡◌, refl, Bool, true, false, List, [], ◌∷◌, ◌++◌, if◌then◌else◌,
  str_eq, eq_iff, elem, length, arith,
}

abbrev pub one_if : Bool → ℕ
one_if true = 1
one_if false = 0

unfoldable pub occ : String → List String → ℕ
occ v [] = 0
occ v (x ∷ xs) = one_if (str_eq v x) + occ v xs

pub elem-occ : (v : String) (xs : List String) → elem v xs ≡ true → 0 < occ v xs
unfolding occ
elem-occ v [] h = absurd (cc)
elem-occ v (x ∷ xs) h = ground (arith, elem-occ v xs)

pub not_elem-occ : (v : String) (xs : List String) → elem v xs ≡ false → occ v xs ≡ 0
unfolding occ
not_elem-occ v [] h = refl
not_elem-occ v (x ∷ xs) h = ground (arith, not_elem-occ v xs)

pub occ-append : (v : String) (xs ys : List String) → occ v (xs ++ ys) ≡ occ v xs + occ v ys
unfolding occ
occ-append v [] ys = omega arith
occ-append v (x ∷ xs) ys = omega (arith, occ-append v xs ys)

pub occ-push :
    (v w : String) (xs : List String) → occ v (xs ++ w ∷ []) ≡ occ v xs + one_if (str_eq v w)
unfolding occ
occ-push v w [] = omega arith
occ-push v w (x ∷ xs) = omega (arith, occ-push v w xs)

pub occ_self : (x : String) (xs : List String) → 0 < occ x (x ∷ xs)
unfolding occ
occ_self x xs = ground (arith, eq_iff x x)

-- The list without the first `x`.
unfoldable remove : String → List String → List String
remove x [] = []
remove x (y ∷ ys) = let rest = remove x ys in if str_eq x y then ys else y ∷ rest

occ-remove :
    (x v : String) (ys : List String)
    → 0 < occ x ys
    → occ v ys ≡ one_if (str_eq v x) + occ v (remove x ys)
unfolding occ remove
occ-remove x v [] h = absurd (omega arith)
occ-remove x v (y ∷ ys) h = ground (arith, occ-remove x v ys, eq_iff x y, eq_iff v x, eq_iff v y)

length-remove :
    (x : String) (ys : List String) → 0 < occ x ys → length ys ≡ suc (length (remove x ys))
unfolding occ remove
length-remove x [] h = absurd (omega arith)
length-remove x (y ∷ ys) h = ground (arith, length-remove x ys)

-- A list that holds no text more often than another one is no longer.
pub length_le_of_occ :
    (xs ys : List String) → ((v : String) → occ v xs ≤ occ v ys) → length xs ≤ length ys
unfolding occ
length_le_of_occ [] ys h = omega arith
length_le_of_occ (x ∷ xs) ys h =
    let pos : 0 < occ x ys = ground (arith, h x, eq_iff x x) in
    let ih = length_le_of_occ xs (remove x ys) (λ v. ground (arith, h v, occ-remove x v ys pos)) in
    ground (arith, length-remove x ys pos, ih)

-- If it is no shorter either, the two hold each text equally often.
pub occ_le_of_length :
    (xs ys : List String)
    → ((v : String) → occ v xs ≤ occ v ys)
    → length ys ≤ length xs
    → (v : String) → occ v ys ≤ occ v xs
unfolding occ
occ_le_of_length [] [] h l v = omega arith
occ_le_of_length [] (y ∷ ys) h l v = absurd (omega arith)
occ_le_of_length (x ∷ xs) ys h l v =
    let pos : 0 < occ x ys = ground (arith, h x, eq_iff x x) in
    let ih =
      occ_le_of_length xs (remove x ys) (λ w. ground (arith, h w, occ-remove x w ys pos))
        (ground (arith, length-remove x ys pos)) v in
    ground (arith, occ-remove x v ys pos, ih)
