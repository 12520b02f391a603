-- ===== src/Flow/Rework.antt =====
-- `ReworkProgressGuard` of app/core/rework_guard.py.
use ai_team_os.Prelude.{
  is_nil, ℕ, zero, suc, ◌+◌, ◌-◌, ◌<◌, String, ◌≡◌, refl, sym, ap, ◌∙◌, ◌↔◌, Bool, true, false,
  ◌&&◌, ◌||◌, List, [], ◌∷◌, ◌++◌, map, if◌then◌else◌, eq_iff, ltb, ◌==◌, elem, length, drop,
  last_n, filter, arith, Bool-cases, inl, inr, subst,
}
use ai_team_os.Flow.Defs.{SubtaskState, is_rejected}

-- MAX_IDENTICAL_SIGNATURES
abbrev pub max_identical_signatures : ℕ
max_identical_signatures = 2

-- len(set(xs))
unfoldable pub set_size : List String → ℕ
set_size [] = 0
set_size (x ∷ xs) = if elem x xs then set_size xs else suc (set_size xs)

-- `signatures[-n:]`, which is the whole list for 0.
abbrev tail_of : ℕ → List String → List String
tail_of n signatures = if n == 0 then signatures else last_n n signatures

unfoldable pub has_no_progress : ℕ → List String → Bool
unfolding set_size
has_no_progress max_identical signatures =
    if is_nil signatures || ltb (length signatures) max_identical
    then false
    else set_size (tail_of max_identical signatures) == 1

-- The subtasks that stay rejected in the same way.
unfoldable pub no_progress_subtask_ids : ℕ → List SubtaskState → List String
unfolding has_no_progress
no_progress_subtask_ids max_identical subtasks =
    map (λ (s : SubtaskState). s.spec.subtask_id)
      (filter
        (λ s. is_rejected s.runtime_status && has_no_progress max_identical s.rework_signatures)
        subtasks)

last_two :
    (k : ℕ) (xs : List String)
    → length xs ≡ k + 2
    → (rest : List String) × (a : String) × (b : String) × (xs ≡ rest ++ a ∷ b ∷ [])
      × (drop k xs ≡ a ∷ b ∷ [])
last_two zero [] h = absurd (omega (arith, h))
last_two zero (a ∷ []) h = absurd (omega (arith, h))
last_two zero (a ∷ b ∷ []) h = ([], a, b, refl, refl)
last_two zero (a ∷ b ∷ c ∷ xs) h = absurd (omega (arith, h))
last_two (suc k) [] h = absurd (omega (arith, h))
last_two (suc k) (x ∷ xs) h =
    let (rest, a, b, e, f) = last_two k xs (omega (arith, h)) in
    (x ∷ rest, a, b, ap (λ l. x ∷ l) e, f)

length-snoc_two :
    (rest : List String) (a b : String) → length (rest ++ a ∷ b ∷ []) ≡ length rest + 2
length-snoc_two [] a b = omega arith
length-snoc_two (x ∷ rest) a b = omega (arith, length-snoc_two rest a b)

drop-snoc_two :
    (rest : List String) (a b : String) → drop (length rest) (rest ++ a ∷ b ∷ []) ≡ a ∷ b ∷ []
drop-snoc_two [] a b = refl
drop-snoc_two (x ∷ rest) a b = drop-snoc_two rest a b

-- With at least two signatures, the last two decide.
by_last_two :
    (k : ℕ) (a b : String) (xs : List String)
    → length xs ≡ k + 2
    → drop k xs ≡ a ∷ b ∷ []
    → (has_no_progress max_identical_signatures xs ≡ true) ↔ (a ≡ b)
unfolding has_no_progress
by_last_two k a b [] h d = absurd (omega (arith, h))
by_last_two k a b (x ∷ xs) h d =
    let count : suc (length xs) - 2 ≡ k = omega (arith, h) in
    (
      λ e. ground (arith, rw (count, d) at e, eq_iff a b),
      λ e. rw (count, d) (ground (arith, eq_iff a b)),
    )

short_false :
    (xs : List String) → length xs < 2 → has_no_progress max_identical_signatures xs ≡ false
unfolding has_no_progress
short_false [] h = refl
short_false (x ∷ xs) h = ground arith

-- A subtask has stopped making progress exactly when its last two signatures are there and equal.
pub has_no_progress_iff :
    (signatures : List String)
    → (has_no_progress max_identical_signatures signatures ≡ true)
      ↔ ((rest : List String) × (s : String) × (signatures ≡ rest ++ s ∷ s ∷ []))
has_no_progress_iff signatures = (
  λ h. elim (Bool-cases (ltb (length signatures) 2)) [
    | inl short ↦ absurd (ground (arith, short_false signatures (ground arith)))
    | inr long ↦
        let k = length signatures - 2 in
        let size : length signatures ≡ k + 2 = ground arith in
        let (rest, a, b, e, f) = last_two k signatures size in
        let same = (by_last_two k a b signatures size f).0 h in
        (rest, a, e ∙ ap (λ x. rest ++ a ∷ x ∷ []) (sym same))
  ],
  λ (rest, a, e).
      subst (λ l. has_no_progress max_identical_signatures l ≡ true) (sym e)
        ((by_last_two (length rest) a a (rest ++ a ∷ a ∷ []) (length-snoc_two rest a a)
            (drop-snoc_two rest a a)).1
          refl),
)
