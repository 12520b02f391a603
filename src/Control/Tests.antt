-- ===== src/Control/Tests.antt =====
-- Runs of the mailbox, calls that overlap among them, and the theorem at one of them.
use ai_team_os.Prelude.{
  arith, Text, codes, ◌≡◌, refl, Option, none, some, List, [], ◌∷◌, Result, ok, err, ◌>>=◌,
}
use ai_team_os.Control.Defs.{
  Action, pause, stop, holds, Box, ControlError, is_run_id, read, snapshot, write, write_box, path,
  request, add_constraint, emptied, take_constraints,
}
use ai_team_os.Control.Requests.{action_of, Sent, ask, add, send_all, waiting}
use ai_team_os.Control.Laws.{take-send_all}

abbrev run : Text
run = codes "run-1"

abbrev empty : Box
empty run_id = none

abbrev sent : List Sent
sent =
    record { now = 1; run_id = run; command = ask stop }
    ∷ record { now = 2; run_id = run; command = add (codes "use tables") }
    ∷ record { now = 3; run_id = codes "run-2"; command = add (codes "use tables") }
    ∷ record { now = 4; run_id = run; command = add (codes "only 2020") }
    ∷ []

take-send_all_example :
    (box' box'' : Box) × (send_all sent empty ≡ ok box')
    × (take_constraints 7 run box' ≡ ok (box'', codes "use tables" ∷ codes "only 2020" ∷ []))
    × (waiting run box'' ≡ [])
    × (action_of run box'' ≡ some stop)
unfolding is_run_id read
take-send_all_example =
    take-send_all run sent empty 7 refl (refl, (refl, (refl, (refl, tt)))) refl
      (refl, omega arith, (refl, omega arith, tt)) (omega arith)

-- What a taking has given, and what is left.
abbrev seen : Result ControlError (Box × List Text) → List (List Text × List Text × Option Action)
seen (ok (box, taken)) = (taken, waiting run box, (read (box run)).action) ∷ []
seen (err e) = []

abbrev one : Box
one run_id =
    some (holds (record { action = none; constraints = codes "a" ∷ []; updated_at = none }))

-- A taking has read the file, a constraint comes in, and the taking writes.
abbrev overlapping_add : Result ControlError (Box × List Text)
unfolding snapshot add_constraint write
overlapping_add = do
  s ← snapshot run one
  r ← add_constraint 2 run (codes "b") one
  emptied 3 run s r.0

overlapping_add_lost : seen overlapping_add ≡ (codes "a" ∷ [], [], none) ∷ []
unfolding is_run_id path read snapshot write write_box add_constraint
overlapping_add_lost = refl

abbrev overlapping_stop : Result ControlError (Box × List Text)
overlapping_stop = do s ← snapshot run one; r ← request 2 run stop one; emptied 3 run s r.0

overlapping_stop_lost : seen overlapping_stop ≡ (codes "a" ∷ [], [], none) ∷ []
unfolding is_run_id path read snapshot write write_box request
overlapping_stop_lost = refl

bad_id_refused : request 1 (codes "../x") pause empty ≡ err ControlError.invalid_run_id
unfolding is_run_id path snapshot request
bad_id_refused = refl
