-- ===== src/Control/Boxes.antt =====
-- What a request changes in the mailbox.
use ai_team_os.Prelude.{
  length-last_n, zero, text_eq_iff, ℕ, suc, ◌≤◌, Text, text_eq, ◌≡◌, refl, ap, ◌∙◌, Bool, true,
  false, Option, some, List, [], ◌∷◌, ◌++◌, if◌then◌else◌, any, length, take, last_n, ok, arith,
  Bool-cases, inl, inr, ◌>>=◌, ◌-◌,
}
use ai_team_os.Control.Defs.{
  Action, Snapshot, Box, Content, holds, is_run_id, path, read, snapshot, write, write_box,
  with_constraint, stamped,
}
use ai_team_os.Control.Requests.{waiting, action_of}

take-short {ℓ} : {A : Type ℓ} (n : ℕ) (xs : List A) → length xs ≤ n → take n xs ≡ xs
take-short zero [] h = refl
take-short (suc n) [] h = refl
take-short zero (x ∷ xs) h = absurd (omega (arith, h))
take-short (suc n) (x ∷ xs) h = ap (λ l. x ∷ l) (take-short n xs (omega (arith, h)))

last_n-short {ℓ} : {A : Type ℓ} (n : ℕ) (xs : List A) → length xs ≤ n → last_n n xs ≡ xs
last_n-short n xs h = let e : length xs - n ≡ 0 = omega (arith, h) in rw e refl

-- What a method writes that changes what it has read by `f`.
pub changed :
    (now : ℕ) (run_id : Text) (f : Snapshot → Snapshot) (box : Box)
    → is_run_id run_id ≡ true
    → (snapshot run_id box >>= λ d. write now run_id (f d) box)
      ≡ ok (write_box now run_id (f (read (box run_id))) box, stamped now (f (read (box run_id))))
unfolding snapshot write path
changed now run_id f box valid = rw valid refl

-- What is read of a file that a test has replaced.
read_if :
    (b : Bool) (now : ℕ) (s : Snapshot) (c : Option Content)
    → (read (if b then some (holds (stamped now s)) else c)).constraints
      ≡ (if b then last_n 10 s.constraints else (read c).constraints)
unfolding read
read_if true now s c = last_n-short 10 (last_n 10 s.constraints) (length-last_n 10 s.constraints)
read_if false now s c = refl

pub waiting-write_box :
    (run_id other : Text) (now : ℕ) (s : Snapshot) (box : Box)
    → waiting run_id (write_box now other s box)
      ≡ (if text_eq other run_id then last_n 10 s.constraints else waiting run_id box)
unfolding write_box
waiting-write_box run_id other now s box = read_if (text_eq other run_id) now s (box run_id)

action_if :
    (b : Bool) (now : ℕ) (s : Snapshot) (c : Option Content)
    → (read (if b then some (holds (stamped now s)) else c)).action
      ≡ (if b then s.action else (read c).action)
unfolding read
action_if true now s c = refl
action_if false now s c = refl

-- A request that changes the action by `g`.
pub action-write_box :
    (run_id other : Text) (now : ℕ) (f : Snapshot → Snapshot) (g : Option Action → Option Action)
    (box : Box)
    → (f (read (box other))).action ≡ g (action_of other box)
    → action_of run_id (write_box now other (f (read (box other))) box)
      ≡ (if text_eq other run_id then g (action_of run_id box) else action_of run_id box)
unfolding write_box
action-write_box run_id other now f g box made = elim (Bool-cases (text_eq other run_id)) [
  | inl e ↦
      let same : action_of other box ≡ action_of run_id box =
        ap (λ r. action_of r box) ((text_eq_iff other run_id).0 e) in
      action_if (text_eq other run_id) now (f (read (box other))) (box run_id)
      ∙ rw e (made ∙ ap g same)
  | inr e ↦ action_if (text_eq other run_id) now (f (read (box other))) (box run_id) ∙ rw e refl
]

-- A request that leaves the constraints as they are.
pub waiting-kept :
    (run_id other : Text) (now : ℕ) (f : Snapshot → Snapshot) (box : Box)
    → (f (read (box other))).constraints ≡ waiting other box
    → length (waiting run_id box) ≤ 10
    → waiting run_id (write_box now other (f (read (box other))) box) ≡ waiting run_id box
waiting-kept run_id other now f box kept short = elim (Bool-cases (text_eq other run_id)) [
  | inl e ↦
      let same : waiting other box ≡ waiting run_id box =
        ap (λ r. waiting r box) ((text_eq_iff other run_id).0 e) in
      rw (waiting-write_box run_id other now (f (read (box other))) box, e, kept, same)
        (last_n-short 10 (waiting run_id box) short)
  | inr e ↦ rw (waiting-write_box run_id other now (f (read (box other))) box, e) refl
]

-- A constraint that is new is the last of those that wait.
pub waiting-added :
    (run_id : Text) (now : ℕ) (i : Text) (box : Box)
    → any (text_eq i) (waiting run_id box) ≡ false
    → length i ≤ 2000
    → length (waiting run_id box ++ i ∷ []) ≤ 10
    → waiting run_id (write_box now run_id (with_constraint i (read (box run_id))) box)
      ≡ waiting run_id box ++ i ∷ []
waiting-added run_id now i box new short room =
    let ws = waiting run_id box in
    let cut = take-short 2000 i short in
    let kept = last_n-short 10 (ws ++ i ∷ []) room in
    rw
      (
        waiting-write_box run_id run_id now (with_constraint i (read (box run_id))) box,
        (text_eq_iff run_id run_id).1 refl,
        new,
        cut,
        kept,
      )
      kept
