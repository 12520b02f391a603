-- ===== src/Patch/Untouched.antt =====
-- What a step of the application of a patch leaves as it was.
use ai_team_os.Prelude.{
  false, text_eq_iff, String, Text, text_eq, ◌≡◌, ◌≢◌, refl, sym, ◌∙◌, subst, inl, inr, Bool, ◌||◌,
  none, some, List, [], ◌∷◌, ◌++◌, eq_iff, any, All, Dict, lookup, lookup-insert, Result, ok, err,
  arith, Bool-cases,
}
use ai_team_os.Patch.Defs.{PatchError, apply_diff_to_file}
use ai_team_os.Patch.Paths.{validate_rel_path}
use ai_team_os.Patch.Store.{
  Files, Workspace, Surroundings, text_of, Outcome, temporary, with_temporary, renamed, replace,
  apply_target, apply_file, and_then, start,
}

-- The names of the backups differ, and no target is the same file as one before it or the temporary
-- file of one.
abbrev pub AreDistinct : Surroundings → List (Text × String) → Type 0
AreDistinct w [] = Unit
AreDistinct w ((rel, name) ∷ targets) =
    All
      (λ other.
        (name ≢ other.1)
        × ((t : Text)
            → validate_rel_path w.worktree rel ≡ ok t
            → (validate_rel_path w.worktree other.0 ≢ ok t)
              × (validate_rel_path w.worktree other.0 ≢ ok (temporary t))))
      targets
    × AreDistinct w targets

-- The path is not that of a target's temporary file.
abbrev pub IsNoTemporary : Surroundings → Text → List (Text × String) → Type 0
IsNoTemporary w p =
    All (λ x. (t : Text) → validate_rel_path w.worktree x.0 ≡ ok t → temporary t ≢ p)

pub any-snoc {ℓ} :
    {A : Type ℓ} (p : A → Bool) (xs : List A) (y : A) → any p (xs ++ y ∷ []) ≡ (any p xs || p y)
any-snoc p [] y = ground arith
any-snoc p (x ∷ xs) y = ground (arith, any-snoc p xs y)

pub All-snoc {ℓ κ} :
    {A : Type ℓ} (P : A → Type κ) (xs : List A) (y : A) → All P xs → P y → All P (xs ++ y ∷ [])
All-snoc P [] y a b = (b, tt)
All-snoc P (x ∷ xs) y a b = (a.0, All-snoc P xs y a.1 b)

-- A file is replaced in two steps, and either may fail.
pub replace_lem {κ} :
    (P : Workspace → Type κ) (w : Surroundings) (t new_text : Text) (ws : Workspace)
    → P ws
    → P (record ws { files = with_temporary t new_text ws.files })
    → P (record ws { files = renamed t new_text ws.files })
    → P (replace w t new_text ws).0
replace_lem P w t new_text ws a b c = elim (Bool-cases (w.cannot_write (temporary t))) [
  | inl e ↦ rw e a
  | inr e ↦ elim (Bool-cases (w.cannot_replace t)) [ inl f ↦ rw (e, f) b | inr f ↦ rw (e, f) c ]
]

-- What neither step changes.
pub with_temporary-other :
    (t new_text : Text) (files : Files) (p : Text)
    → temporary t ≢ p
    → with_temporary t new_text files p ≡ files p
with_temporary-other t new_text files p h = ground (arith, h, text_eq_iff (temporary t) p)

pub renamed-other :
    (t new_text : Text) (files : Files) (p : Text)
    → temporary t ≢ p
    → text_eq t p ≡ false
    → renamed t new_text files p ≡ files p
renamed-other t new_text files p h other = rw other (ground (arith, h, text_eq_iff (temporary t) p))

-- What holds after a step and after those that follow holds whether it fails or not.
pub and_then_lem {κ} :
    (P : Workspace → Type κ) (o : Outcome) (k : Workspace → Outcome)
    → P o.0
    → P (k o.0).0
    → P (and_then o k).0
and_then_lem P (ws, none) k s t = t
and_then_lem P (ws, some e) k s t = s

-- What a file of the proposal does not touch.
files_elsewhere :
    (w : Surroundings) (diff : Text) (id : String) (rel : Text) (name : String)
    (v : Result PatchError Text) (ws : Workspace) (q : Text)
    → ((t : Text) → v ≡ ok t → (t ≢ q) × (temporary t ≢ q))
    → (apply_target w diff id rel name v ws).0.files q ≡ ws.files q
files_elsewhere w diff id rel name (err e) ws q h = refl
files_elsewhere w diff id rel name (ok t) ws q h =
    let (other, no_temp) = h t refl in
    ground (arith, other, no_temp, text_eq_iff t q, text_eq_iff (temporary t) q)

backups_elsewhere :
    (w : Surroundings) (diff : Text) (id : String) (rel : Text) (name : String)
    (v : Result PatchError Text) (ws : Workspace) (m : String)
    → name ≢ m
    → lookup m (apply_target w diff id rel name v ws).0.backups ≡ lookup m ws.backups
backups_elsewhere w diff id rel name (err e) ws m h = refl
backups_elsewhere w diff id rel name (ok t) ws m h = ground (
  arith,
  apply_diff_to_file diff rel (text_of (ws.files t)),
  eq_iff name m,
  lookup-insert name m (text_of (ws.files t)) ws.backups,
)

-- The names of the other backups are new, and the other files untouched.
abbrev pub AreUntouched : Surroundings → Files → Workspace → List (Text × String) → Type 0
AreUntouched w f0 ws = All (λ x.
    (lookup x.1 ws.backups ≡ none)
    × ((t : Text) → validate_rel_path w.worktree x.0 ≡ ok t → ws.files t ≡ f0 t))

module _ (w : Surroundings) (diff : Text) (id : String) (f0 : Files) where
  pub untouched_stay :
      (rel : Text) (name : String) (ws : Workspace) (targets : List (Text × String))
      → AreUntouched w f0 ws targets
      → All
          (λ other.
            (name ≢ other.1)
            × ((t : Text)
                → validate_rel_path w.worktree rel ≡ ok t
                → (validate_rel_path w.worktree other.0 ≢ ok t)
                  × (validate_rel_path w.worktree other.0 ≢ ok (temporary t))))
          targets
      → AreUntouched w f0 (apply_file w diff id rel name ws).0 targets
  unfolding apply_file
  untouched_stay rel name ws [] u d = tt
  untouched_stay rel name ws ((rel', name') ∷ targets) u d =
      let v = validate_rel_path w.worktree rel in
      (
        (
          backups_elsewhere w diff id rel name v ws name' d.0.0 ∙ u.0.0,
          λ q e.
              files_elsewhere w diff id rel name v ws q (λ t h. (
                λ same.
                    (d.0.1 t h).0
                      (subst (λ x. validate_rel_path w.worktree rel' ≡ ok x) (sym same) e),
                λ same.
                    (d.0.1 t h).1
                      (subst (λ x. validate_rel_path w.worktree rel' ≡ ok x) (sym same) e),
              ))
              ∙ u.0.1 q e,
        ),
        untouched_stay rel name ws targets u.1 d.1,
      )

pub at_start :
    (w : Surroundings) (files : Files) (backups : Dict Text) (xs : List (Text × String))
    → All (λ x. lookup x.1 backups ≡ none) xs
    → AreUntouched w files (start files backups) xs
at_start w files backups [] a = tt
at_start w files backups (x ∷ xs) a = ((a.0, λ t h. refl), at_start w files backups xs a.1)
