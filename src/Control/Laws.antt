-- ===== src/Control/Laws.antt =====
-- What is sent to a run by the mailbox arrives.
use ai_team_os.Prelude.{
  All, text_eq_iff, ℕ, ◌≤◌, Text, text_eq, ◌≡◌, refl, sym, ap, subst, ◌∙◌, Bool, true, false, none,
  some, List, [], ◌∷◌, ◌++◌, if◌then◌else◌, length, length-append, is_nil, ok, arith, Bool-cases,
  inl, inr,
}
use mathlib.Core.List.{append-nil, append_assoc}
use ai_team_os.Control.Defs.{
  Snapshot, Box, is_run_id, path, read, snapshot, write, write_box, request, add_constraint,
  clear_action, take_constraints, with_action, with_constraint,
}
use ai_team_os.Control.Requests.{
  Command, ask, add, resume, Sent, send, send_all, instruction_of, sent_to, action_after,
  asked_last, AreNew, waiting, action_of,
}
use ai_team_os.Control.Boxes.{
  changed, waiting-write_box, action-write_box, waiting-kept, waiting-added,
}

-- A request to another run leaves those of this one.
waiting-other :
    (run_id other : Text) (now : ℕ) (s : Snapshot) (box : Box)
    → text_eq other run_id ≡ false
    → waiting run_id (write_box now other s box) ≡ waiting run_id box
waiting-other run_id other now s box e = rw (waiting-write_box run_id other now s box, e) refl

send-waiting :
    (run_id other : Text) (c : Command) (now : ℕ) (box : Box) (b : Bool)
    → text_eq other run_id ≡ b
    → is_run_id other ≡ true
    → AreNew (waiting run_id box) (instruction_of c b)
    → length (waiting run_id box ++ instruction_of c b) ≤ 10
    → (r : Box × Snapshot) × (send c now other box ≡ ok r)
      × (waiting run_id r.0 ≡ waiting run_id box ++ instruction_of c b)
      × (action_of run_id r.0 ≡ (
          if text_eq other run_id
          then action_after c (action_of run_id box)
          else action_of run_id box))
unfolding send request add_constraint clear_action
send-waiting run_id other (ask a) now box b e valid new room = (
  _,
  changed now other (with_action (some a)) box valid,
  waiting-kept run_id other now (with_action (some a)) box refl
        (rw (append-nil (waiting run_id box)) at room)
      ∙ sym (append-nil _),
  action-write_box run_id other now (with_action (some a)) (action_after (ask a)) box refl,
)
send-waiting run_id other resume now box b e valid new room = (
  _,
  changed now other (with_action none) box valid,
  waiting-kept run_id other now (with_action none) box refl
        (rw (append-nil (waiting run_id box)) at room)
      ∙ sym (append-nil _),
  action-write_box run_id other now (with_action none) (action_after resume) box refl,
)
send-waiting run_id other (add i) now box false e valid new room = (
  _,
  changed now other (with_constraint i) box valid,
  waiting-other run_id other now _ box e ∙ sym (append-nil _),
  action-write_box run_id other now (with_constraint i) (action_after (add i)) box refl,
)
send-waiting run_id other (add i) now box true e valid new room = (
  _,
  changed now other (with_constraint i) box valid,
  subst
      (λ r.
        waiting run_id (write_box now r (with_constraint i (read (box r))) box)
        ≡ waiting run_id box ++ i ∷ [])
      (sym ((text_eq_iff other run_id).0 e))
      (let (fresh, short, _) = new in waiting-added run_id now i box fresh short room),
  action-write_box run_id other now (with_constraint i) (action_after (add i)) box refl,
)

AreNew-append :
    (seen xs ys : List Text) → AreNew seen (xs ++ ys) → AreNew seen xs × AreNew (seen ++ xs) ys
AreNew-append seen [] ys a = (tt, rw (append-nil seen) a)
AreNew-append seen (x ∷ xs) ys a =
    let (fresh, short, later) = a in
    let (front, back) = AreNew-append (seen ++ x ∷ []) xs ys later in
    ((fresh, short, front), subst (λ l. AreNew l ys) (append_assoc seen (x ∷ []) xs) back)

send_all-waiting :
    (run_id : Text) (cs : List Sent) (box : Box)
    → All (λ c. is_run_id c.run_id ≡ true) cs
    → AreNew (waiting run_id box) (sent_to run_id cs)
    → length (waiting run_id box ++ sent_to run_id cs) ≤ 10
    → (box' : Box) × (send_all cs box ≡ ok box')
      × (waiting run_id box' ≡ waiting run_id box ++ sent_to run_id cs)
      × (action_of run_id box' ≡ asked_last run_id cs (action_of run_id box))
unfolding send_all
send_all-waiting run_id [] box valid new room = (box, refl, sym (append-nil _), refl)
send_all-waiting run_id (c ∷ cs) box valid new room =
    let is = instruction_of c.command (text_eq c.run_id run_id) in
    let ws = waiting run_id box in
    let whole = append_assoc ws is (sent_to run_id cs) in
    let (front, back) = AreNew-append ws is (sent_to run_id cs) new in
    let space : length (ws ++ is) ≤ 10 =
      omega (arith, ap length whole, length-append (ws ++ is) (sent_to run_id cs), room) in
    let (r, sent, after, acted) =
      send-waiting run_id c.run_id c.command c.now box (text_eq c.run_id run_id) refl valid.0 front
        space in
    let (box', ran, last, action) =
      send_all-waiting run_id cs r.0 valid.1 (rw after back) (rw (after, whole) room) in
    (
      box',
      rw (sent, ran) refl,
      last ∙ ap (λ l. l ++ sent_to run_id cs) after ∙ whole,
      action ∙ ap (asked_last run_id cs) acted,
    )

nil-of_is_nil {ℓ} : {A : Type ℓ} (xs : List A) → is_nil xs ≡ true → xs ≡ []
nil-of_is_nil [] h = refl
nil-of_is_nil (x ∷ xs) h = cc h

-- What is read of a file that was written.
read-write_box :
    (now : ℕ) (run_id : Text) (s : Snapshot) (box : Box)
    → (read (write_box now run_id s box run_id)).action ≡ s.action
unfolding write_box read
read-write_box now run_id s box = rw ((text_eq_iff run_id run_id).1 refl) refl

-- What is taken is what waited; the action stays.
taken :
    (now : ℕ) (run_id : Text) (box : Box)
    → is_run_id run_id ≡ true
    → (box' : Box) × (take_constraints now run_id box ≡ ok (box', waiting run_id box))
      × (waiting run_id box' ≡ [])
      × ((read (box' run_id)).action ≡ (read (box run_id)).action)
unfolding take_constraints snapshot write path
taken now run_id box valid = elim (Bool-cases (is_nil (waiting run_id box))) [
  | inl e ↦ (box, rw (valid, e) refl, nil-of_is_nil (waiting run_id box) e, refl)
  | inr e ↦
      let left = record (read (box run_id)) { constraints = [] } in
      (
        write_box now run_id left box,
        rw (valid, e) refl,
        rw (waiting-write_box run_id run_id now left box, (text_eq_iff run_id run_id).1 refl) refl,
        read-write_box now run_id left box,
      )
]

-- A run has no constraints waiting, and requests are sent to the mailbox one after the other, each
-- to a run with a valid id: to pause, to stop, to resume, or an instruction. Those for this run are
-- at most ten instructions, no two of them the same and none above 2000 characters. Then every
-- request is accepted, the next taking gives just these instructions in the order in which they were
-- sent, and none waits then; and the action that is there is that of the last request to pause, to
-- stop or to resume this run, or without any the action of before.
pub take-send_all :
    (run_id : Text) (cs : List Sent) (box : Box) (now : ℕ)
    → is_run_id run_id ≡ true
    → All (λ c. is_run_id c.run_id ≡ true) cs
    → waiting run_id box ≡ []
    → AreNew [] (sent_to run_id cs)
    → length (sent_to run_id cs) ≤ 10
    → (box' box'' : Box) × (send_all cs box ≡ ok box')
      × (take_constraints now run_id box' ≡ ok (box'', sent_to run_id cs))
      × (waiting run_id box'' ≡ [])
      × (action_of run_id box'' ≡ asked_last run_id cs (action_of run_id box))
take-send_all run_id cs box now valid all_valid none_waits new room =
    let (box', ran, there, acted) =
      send_all-waiting run_id cs box all_valid (rw none_waits new) (rw none_waits room) in
    let (box'', took, left, same) = taken now run_id box' valid in
    let all_there : waiting run_id box' ≡ sent_to run_id cs = rw none_waits at there in
    (box', box'', ran, took ∙ ap (λ l. ok (box'', l)) all_there, left, same ∙ acted)
