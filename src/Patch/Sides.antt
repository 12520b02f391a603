-- ===== src/Patch/Sides.antt =====
-- The two sides of a hunk, and what the loop over its lines does to the lines of a file.
use ai_team_os.Prelude.{
  text_eq_iff, ℕ, suc, ◌+◌, ◌-◌, Text, ◌≡◌, ◌≢◌, refl, ap, inl, inr, List, [], ◌∷◌, ◌++◌, map,
  length, All, arith, ok, err, Bool-cases,
}
use ai_team_os.Patch.Lines.{HunkHeader, chomp}
use ai_team_os.Patch.Defs.{
  DiffLine, context, added, removed, unexpected, on_old_side, on_new_side, count_lines, with_lf,
  push_line, same_line, apply_lines,
}

-- The lines of the two sides of a hunk, without their ends.
abbrev pub old_side : List DiffLine → List Text
old_side [] = []
old_side (context s ∷ body) = chomp s ∷ old_side body
old_side (removed s ∷ body) = chomp s ∷ old_side body
old_side (added s ∷ body) = old_side body
old_side (unexpected ∷ body) = old_side body

abbrev pub new_side : List DiffLine → List Text
new_side [] = []
new_side (context s ∷ body) = chomp s ∷ new_side body
new_side (added s ∷ body) = chomp s ∷ new_side body
new_side (removed s ∷ body) = new_side body
new_side (unexpected ∷ body) = new_side body

-- The file falls into the lines before the hunk, those that the hunk has on its old side, and the
-- rest.
pub record Fits (h : HunkHeader) (body : List DiffLine) (old : List Text) : Type 0 where
  pub before : List Text
  pub matched : List Text
  pub rest : List Text
  pub whole : old ≡ before ++ (matched ++ rest)
  pub start : length before ≡ h.old_start - 1
  pub same : map chomp matched ≡ old_side body
  pub old_lines : length (old_side body) ≡ h.old_count
  pub new_lines : length (new_side body) ≡ h.new_count
  pub known : All (λ l. l ≢ unexpected) body

chomp-append : (s : Text) → chomp (s ++ 10 ∷ []) ≡ chomp s
unfolding chomp
chomp-append [] = refl
chomp-append (c ∷ s) = rw (chomp-append s) refl

chomp-with_lf : (s : Text) → chomp (with_lf s) ≡ chomp s
chomp-with_lf s = ground (arith, chomp-append s)

pub count-old : (body : List DiffLine) → count_lines on_old_side body ≡ length (old_side body)
unfolding count_lines
count-old [] = refl
count-old (context s ∷ body) = ap suc (count-old body)
count-old (removed s ∷ body) = ap suc (count-old body)
count-old (added s ∷ body) = count-old body
count-old (unexpected ∷ body) = count-old body

pub count-new : (body : List DiffLine) → count_lines on_new_side body ≡ length (new_side body)
unfolding count_lines
count-new [] = refl
count-new (context s ∷ body) = ap suc (count-new body)
count-new (added s ∷ body) = ap suc (count-new body)
count-new (removed s ∷ body) = count-new body
count-new (unexpected ∷ body) = count-new body

-- The lines that the loop reads, those that it puts in their place, and the rest.
pub record Rewrites (body : List DiffLine) (old new : List Text) : Type 0 where
  pub matched : List Text
  pub put : List Text
  pub rest : List Text
  pub whole : old ≡ matched ++ rest
  pub result : new ≡ put ++ rest
  pub same : map chomp matched ≡ old_side body
  pub fresh : map chomp put ≡ new_side body
  pub known : All (λ l. l ≢ unexpected) body

push_line-ok :
    (l : Text) (r : _) {new : List Text}
    → push_line l r ≡ ok new
    → (ls : List Text) × (r ≡ ok ls) × (new ≡ l ∷ ls)
push_line-ok l (ok ls) h = (ls, refl, cc h)
push_line-ok l (err e) h = cc h

pub apply_lines-Rewrites :
    (idx : ℕ) (old : List Text) (body : List DiffLine) (new : List Text)
    → apply_lines idx old body ≡ ok new
    → Rewrites body old new
unfolding apply_lines
apply_lines-Rewrites idx old [] new h = record {
  matched = [];
  put = [];
  rest = old;
  whole = refl;
  result = cc h;
  same = refl;
  fresh = refl;
  known = tt;
}
apply_lines-Rewrites idx old (unexpected ∷ body) new h = cc h
apply_lines-Rewrites idx old (added s ∷ body) new h =
    let (ls, e, cons) = push_line-ok (with_lf s) (apply_lines idx old body) h in
    let r = apply_lines-Rewrites idx old body ls e in
    record {
      matched = r.matched;
      put = with_lf s ∷ r.put;
      rest = r.rest;
      whole = r.whole;
      result = cc (cons, r.result);
      same = r.same;
      fresh = cc (chomp-with_lf s, r.fresh);
      known = ((λ e. cc e), r.known);
    }
apply_lines-Rewrites idx [] (context s ∷ body) new h = cc h
apply_lines-Rewrites idx (a ∷ old) (context s ∷ body) new h = elim (Bool-cases (same_line a s)) [
  | inr no_match ↦ absurd (cc (rw no_match at h))
  | inl matches ↦
      let (ls, e, cons) = push_line-ok a (apply_lines (idx + 1) old body) (rw matches at h) in
      let r = apply_lines-Rewrites (idx + 1) old body ls e in
      let eq = (text_eq_iff (chomp a) (chomp s)).0 matches in
      record {
        matched = a ∷ r.matched;
        put = a ∷ r.put;
        rest = r.rest;
        whole = cc r.whole;
        result = cc (cons, r.result);
        same = cc (eq, r.same);
        fresh = cc (eq, r.fresh);
        known = ((λ e. cc e), r.known);
      }
]
apply_lines-Rewrites idx [] (removed s ∷ body) new h = cc h
apply_lines-Rewrites idx (a ∷ old) (removed s ∷ body) new h = elim (Bool-cases (same_line a s)) [
  | inr no_match ↦ absurd (cc (rw no_match at h))
  | inl matches ↦
      let r = apply_lines-Rewrites (idx + 1) old body new (rw matches at h) in
      let eq = (text_eq_iff (chomp a) (chomp s)).0 matches in
      record {
        matched = a ∷ r.matched;
        put = r.put;
        rest = r.rest;
        whole = cc r.whole;
        result = r.result;
        same = cc (eq, r.same);
        fresh = r.fresh;
        known = ((λ e. cc e), r.known);
      }
]

-- The loop succeeds when the file starts with the old side.
pub apply_lines_complete :
    (idx : ℕ) (matched rest : List Text) (body : List DiffLine)
    → map chomp matched ≡ old_side body
    → All (λ l. l ≢ unexpected) body
    → (put : List Text) × (apply_lines idx (matched ++ rest) body ≡ ok (put ++ rest))
      × (map chomp put ≡ new_side body)
unfolding apply_lines
apply_lines_complete idx [] rest [] same known = ([], refl, refl)
apply_lines_complete idx (a ∷ m) rest [] same known = absurd (cc same)
apply_lines_complete idx m rest (unexpected ∷ body) same known = absurd (known.0 refl)
apply_lines_complete idx m rest (added s ∷ body) same known =
    let (put, e, fresh) = apply_lines_complete idx m rest body same known.1 in
    (with_lf s ∷ put, rw e refl, cc (chomp-with_lf s, fresh))
apply_lines_complete idx [] rest (context s ∷ body) same known = absurd (cc same)
apply_lines_complete idx (a ∷ m) rest (context s ∷ body) same known =
    let eq : chomp a ≡ chomp s = cc same in
    let (put, e, fresh) = apply_lines_complete (idx + 1) m rest body (cc same) known.1 in
    (a ∷ put, rw ((text_eq_iff (chomp a) (chomp s)).1 eq, e) refl, cc (eq, fresh))
apply_lines_complete idx [] rest (removed s ∷ body) same known = absurd (cc same)
apply_lines_complete idx (a ∷ m) rest (removed s ∷ body) same known =
    let eq : chomp a ≡ chomp s = cc same in
    let (put, e, fresh) = apply_lines_complete (idx + 1) m rest body (cc same) known.1 in
    (put, rw ((text_eq_iff (chomp a) (chomp s)).1 eq, e) refl, fresh)
