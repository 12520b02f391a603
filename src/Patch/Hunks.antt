-- ===== src/Patch/Hunks.antt =====
-- When a hunk is applied to the lines of a file, and what it makes of them.
use ai_team_os.Prelude.{
  ℕ, zero, suc, ◌+◌, ◌-◌, ◌≤◌, Text, ◌≡◌, refl, sym, ap, ◌∙◌, ◌↔◌, List, [], ◌∷◌, ◌++◌, map, length,
  take, drop, length-append, length-take, arith, ok, >>-eq-ok, bind-eq-ok,
}
use ai_team_os.Patch.Lines.{HunkHeader, chomp}
use ai_team_os.Patch.Defs.{DiffLine, apply_lines, check_header, replace_lines, apply_at}
use ai_team_os.Patch.Sides.{
  old_side, new_side, Fits, count-old, count-new, apply_lines-Rewrites, apply_lines_complete,
}

take-drop {ℓ} : {A : Type ℓ} (n : ℕ) (xs : List A) → take n xs ++ drop n xs ≡ xs
take-drop zero xs = refl
take-drop (suc n) [] = refl
take-drop (suc n) (x ∷ xs) = ap (λ l. x ∷ l) (take-drop n xs)

take-append {ℓ} : {A : Type ℓ} (xs ys : List A) → take (length xs) (xs ++ ys) ≡ xs
take-append [] ys = refl
take-append (x ∷ xs) ys = ap (λ l. x ∷ l) (take-append xs ys)

drop-append {ℓ} : {A : Type ℓ} (xs ys : List A) → drop (length xs) (xs ++ ys) ≡ ys
drop-append [] ys = refl
drop-append (x ∷ xs) ys = drop-append xs ys

length-map {ℓ κ} :
    {A : Type ℓ} {B : Type κ} (f : A → B) (xs : List A) → length (map f xs) ≡ length xs
length-map f [] = refl
length-map f (x ∷ xs) = ap suc (length-map f xs)

-- What a hunk has made of a file that it fits.
pub record Replaced (h : HunkHeader) (body : List DiffLine) (old new : List Text) : Type 0 where
  pub fits : Fits h body old
  pub put : List Text
  pub result : new ≡ fits.before ++ (put ++ fits.rest)
  pub fresh : map chomp put ≡ new_side body

check_header-ok_iff :
    (h : HunkHeader) (old : List Text) (body : List DiffLine)
    → (check_header h old body ≡ ok tt) ↔ (
        (length (old_side body) ≡ h.old_count)
        × (length (new_side body) ≡ h.new_count)
        × ((h.old_start - 1) + h.old_count ≤ length old))
unfolding check_header
check_header-ok_iff h old body = ground (arith, count-old body, count-new body)

Fits-inside :
    (h : HunkHeader) (body : List DiffLine) (old : List Text)
    → Fits h body old
    → (h.old_start - 1) + h.old_count ≤ length old
Fits-inside h body old f = omega (
  arith,
  length-append f.before (f.matched ++ f.rest),
  length-append f.matched f.rest,
  length-map chomp f.matched,
  ap length f.same,
  ap length f.whole,
  f.start,
  f.old_lines,
)

pub apply_at-of_Fits :
    (h : HunkHeader) (body : List DiffLine) (old : List Text) (f : Fits h body old)
    → (put : List Text) × (apply_at h old body ≡ ok (f.before ++ (put ++ f.rest)))
      × (map chomp put ≡ new_side body)
unfolding apply_at replace_lines
apply_at-of_Fits h body old f =
    let idx = h.old_start - 1 in
    let (put, e, fresh) = apply_lines_complete idx f.matched f.rest body f.same f.known in
    let checked =
      (check_header-ok_iff h old body).1 (f.old_lines, f.new_lines, Fits-inside h body old f) in
    let kept : take idx old ≡ f.before = rw (f.whole, ← f.start) (take-append f.before _) in
    let left : drop idx old ≡ f.matched ++ f.rest =
      rw (f.whole, ← f.start) (drop-append f.before _) in
    (put, rw (checked, left, e, kept) refl, fresh)

-- A hunk is applied just when its header counts its lines, each of which is a context line, an
-- addition or a removal, and the lines of the file from the start that the header gives are those
-- of its old side, up to line ends. The lines before and after are then kept as they are, and the
-- lines between become those of the new side.
pub apply_at-ok_iff :
    (h : HunkHeader) (old : List Text) (body : List DiffLine)
    → ((new : List Text) → apply_at h old body ≡ ok new → Replaced h body old new)
      × (Fits h body old
          → (new : List Text) × (apply_at h old body ≡ ok new) × Replaced h body old new)
unfolding apply_at replace_lines
apply_at-ok_iff h old body = (
  found,
  λ f.
      let (put, e, fresh) = apply_at-of_Fits h body old f in
      (_, e, record { fits = f; put = put; result = refl; fresh = fresh }),
)
  where
    found : (new : List Text) → apply_at h old body ≡ ok new → Replaced h body old new
    found new e =
        let idx = h.old_start - 1 in
        let (checked, loop) = >>-eq-ok (check_header h old body) (replace_lines idx old body) e in
        let (olds, news, inside) = (check_header-ok_iff h old body).0 checked in
        let (ls, ran, built) =
          bind-eq-ok (apply_lines idx (drop idx old) body) (λ rest. ok (take idx old ++ rest))
            loop in
        let r = apply_lines-Rewrites idx (drop idx old) body ls ran in
        record {
          fits = record {
            before = take idx old;
            matched = r.matched;
            rest = r.rest;
            whole = sym (take-drop idx old) ∙ ap (λ l. take idx old ++ l) r.whole;
            start = omega (arith, length-take idx old, inside);
            same = r.same;
            old_lines = olds;
            new_lines = news;
            known = r.known;
          };
          put = r.put;
          result = cc (built, r.result);
          fresh = r.fresh;
        }
