-- ===== src/Patch/Safe.antt =====
-- The paths that a patch may touch.
use ai_team_os.Prelude.{
  text_eq_iff, ℕ, Text, codes, text_eq, ◌≡◌, ◌≢◌, refl, subst, ◌⊎◌, inl, inr, Bool, true, false,
  not, ◌||◌, List, [], ◌∷◌, ◌++◌, is_nil, any, filter, All, starts_with, strip, ◌==◌, ok, refuse,
  require, >>-eq-ok, arith, Bool-cases,
}
use ai_team_os.Patch.Lines.{cons_head}
use ai_team_os.Patch.Defs.{PatchError, empty_path, absolute_path, path_traversal, path_escapes}
use ai_team_os.Patch.Paths.{
  Worktree, with_slashes, has_drive, path_parts, is_parent, check_last, is_inside, split_slash,
  validate_rel_path,
}

-- A name in a folder: no part of a path that stays or goes up, and no separator in it.
pub record IsPlain (p : Text) : Type 0 where
  pub some_char : p ≢ []
  pub not_here : p ≢ codes "."
  pub not_parent : p ≢ codes ".."
  pub no_slash : any (λ c. c == 47 || c == 92) p ≡ false

abbrev is_separator : ℕ → Bool
is_separator c = c == 47 || c == 92

slashes_only : (rel : Text) → any (λ c. c == 92) (with_slashes rel) ≡ false
slashes_only [] = refl
slashes_only (c ∷ rel) = ground (arith, slashes_only rel)

cons_head-plain :
    (c : ℕ) (ls : List Text)
    → is_separator c ≡ false
    → All (λ p. any is_separator p ≡ false) ls
    → All (λ p. any is_separator p ≡ false) (cons_head c ls)
cons_head-plain c [] h a = (rw h refl, tt)
cons_head-plain c (l ∷ ls) h a = (rw h a.0, a.1)

split_slash-plain :
    (s : Text)
    → any (λ c. c == 92) s ≡ false
    → All (λ p. any is_separator p ≡ false) (split_slash s)
unfolding split_slash
split_slash-plain [] h = (refl, tt)
split_slash-plain (c ∷ s) h =
    let rest = split_slash-plain s (ground (arith, h)) in
    elim (Bool-cases (c == 47)) [
      | inl e ↦ rw e (refl, rest)
      | inr e ↦ rw e (cons_head-plain c (split_slash s) (ground (arith, h, e)) rest)
    ]

abbrev is_kept : Text → Bool
is_kept p = not (is_nil p || text_eq p (codes "."))

filter-both {κ} :
    (P : Text → Type κ) (q : Text → Bool) (xs : List Text)
    → All P xs
    → All (λ x. P x × (q x ≡ true)) (filter q xs)
filter-both P q [] a = tt
filter-both P q (x ∷ xs) a = elim (Bool-cases (q x)) [
  | inl e ↦ rw (e, filter) ((a.0, e), filter-both P q xs a.1)
  | inr e ↦ rw (e, filter) (filter-both P q xs a.1)
]

IsPlain-parts :
    (xs : List Text)
    → All (λ x. (any is_separator x ≡ false) × (is_kept x ≡ true)) xs
    → any is_parent xs ≡ false
    → All IsPlain xs
IsPlain-parts [] a h = tt
IsPlain-parts (x ∷ xs) a h = (
  record {
    some_char = λ e. cc (subst (λ p. is_kept p ≡ true) e a.0.1);
    not_here = λ e. cc (subst (λ p. is_kept p ≡ true) e a.0.1);
    not_parent = λ e. cc (subst (λ p. any is_parent (p ∷ xs) ≡ false) e h);
    no_slash = a.0.0;
  },
  IsPlain-parts xs a.1 (ground (arith, h)),
)

some_part : (xs : List Text) → check_last xs ≡ ok tt → xs ≢ []
unfolding check_last
some_part [] h = cc h
some_part (x ∷ xs) h = λ e. cc e

path_parts-IsPlain :
    (raw : Text)
    → any (λ c. c == 92) raw ≡ false
    → any is_parent (path_parts raw) ≡ false
    → All IsPlain (path_parts raw)
unfolding path_parts
path_parts-IsPlain raw slashes h =
    IsPlain-parts _ (filter-both _ is_kept (split_slash raw) (split_slash-plain raw slashes)) h

refuse-ok : (b : Bool) (e : PatchError) → refuse b e ≡ ok tt → b ≡ false
refuse-ok true e h = absurd (cc h)
refuse-ok false e h = refl

or_false : (a b : Bool) → (a || b) ≡ false → (a ≡ false) × (b ≡ false)
or_false a b h = (ground arith, ground arith)

inside_cases :
    (w : Worktree) (target : Text)
    → require (is_inside w target) path_escapes ≡ ok tt
    → (target ≡ w.root) ⊎ (starts_with target (w.root ++ w.separator) ≡ true)
inside_cases w target h = elim (Bool-cases (text_eq target w.root)) [
  | inl e ↦ inl ((text_eq_iff target w.root).0 e)
  | inr e ↦ inr (ground (arith, h, e))
]

-- An accepted path starts neither with a slash nor with the letter of a drive, and has a part; each of its parts is a plain name, neither empty
-- nor "." nor "..", without a separator of either kind; and the path is resolved to the worktree or
-- below it.
pub validate_rel_path-IsPlain :
    (w : Worktree) (rel target : Text)
    → validate_rel_path w rel ≡ ok target
    → All IsPlain (path_parts (with_slashes rel))
      × (path_parts (with_slashes rel) ≢ [])
      × (starts_with (with_slashes rel) (codes "/") ≡ false)
      × (has_drive (with_slashes rel) ≡ false)
      × ((target ≡ w.root) ⊎ (starts_with target (w.root ++ w.separator) ≡ true))
unfolding validate_rel_path
validate_rel_path-IsPlain w rel target h =
    let raw = with_slashes rel in
    let ps = path_parts raw in
    let (a, h1) = >>-eq-ok (refuse (is_nil (strip rel)) empty_path) _ h in
    let (absolute, h2) =
      >>-eq-ok (refuse (starts_with raw (codes "/") || has_drive raw) absolute_path) _ h1 in
    let (parents, h3) = >>-eq-ok (refuse (any is_parent ps) path_traversal) _ h2 in
    let (some_last, h4) = >>-eq-ok (check_last ps) _ h3 in
    let (inside, h5) = >>-eq-ok (require (is_inside w (w.resolve ps)) path_escapes) _ h4 in
    let resolved : w.resolve ps ≡ target = cc h5 in
    (
      path_parts-IsPlain raw (slashes_only rel)
          (refuse-ok (any is_parent ps) path_traversal parents),
      some_part ps some_last,
      (or_false _ _ (refuse-ok _ absolute_path absolute)).0,
      (or_false _ _ (refuse-ok _ absolute_path absolute)).1,
      subst (λ t. (t ≡ w.root) ⊎ (starts_with t (w.root ++ w.separator) ≡ true)) resolved
          (inside_cases w (w.resolve ps) inside),
    )
