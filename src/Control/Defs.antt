-- ===== src/Control/Defs.antt =====
-- `TaskControlStore` of app/core/task_control.py. A file is what the code reads of it; one whose text is
-- no JSON, or that cannot be read, is `unreadable`. Times are arguments. The field `run_id` is the
-- name of the file and is left out, and so are failures of the disk in a write. Each method is run as
-- a whole: calls of it that overlap are put together from `read` and `write_box`.
use ai_team_os.Prelude.{
  ℕ, Text, Bool, not, ◌&&◌, ◌||◌, Option, none, some, List, [], ◌∷◌, ◌++◌, if◌then◌else◌, leb, ◌==◌,
  is_nil, any, all, length, take, last_n, text_eq, Result, ok, require, ◌>>=◌, ◌>>◌,
}

pub data Action : Type 0 where
  pause stop : Action

pub record Snapshot : Type 0 where
  pub action : Option Action
  pub constraints : List Text
  pub updated_at : Option ℕ

pub data Content : Type 0 where
  unreadable : Content
  holds : Snapshot → Content

-- The files of the mailbox, by run id.
abbrev pub Box : Type 0
Box = Text → Option Content

pub data ControlError : Type 0 where
  invalid_run_id : ControlError

-- [A-Za-z0-9_-]
abbrev pub is_run_char : ℕ → Bool
is_run_char c =
    (leb 65 c && leb c 90)
    || (leb 97 c && leb c 122)
    || (leb 48 c && leb c 57)
    || (c == 95)
    || (c == 45)

unfoldable pub is_run_id : Text → Bool
is_run_id run_id = not (is_nil run_id) && leb (length run_id) 100 && all is_run_char run_id

unfoldable pub path : Text → Result ControlError (Unit {0})
path run_id = require (is_run_id run_id) invalid_run_id

abbrev pub no_data : Snapshot
no_data = record { action = none; constraints = []; updated_at = none }

unfoldable pub read : Option Content → Snapshot
read none = no_data
read (some unreadable) = no_data
read (some (holds s)) = record s { constraints = last_n 10 s.constraints }

unfoldable pub snapshot : Text → Box → Result ControlError Snapshot
snapshot run_id box = path run_id >> ok (read (box run_id))

abbrev pub stamped : ℕ → Snapshot → Snapshot
stamped now data_read = record {
  action = data_read.action;
  constraints = last_n 10 data_read.constraints;
  updated_at = some now;
}

unfoldable pub write_box : ℕ → Text → Snapshot → Box → Box
write_box now run_id data_read box other =
    if text_eq run_id other then some (holds (stamped now data_read)) else box other

unfoldable pub write : ℕ → Text → Snapshot → Box → Result ControlError (Box × Snapshot)
write now run_id data_read box =
    path run_id >> ok (write_box now run_id data_read box, stamped now data_read)

-- What the methods change in the data that they have read.
abbrev pub with_action : Option Action → Snapshot → Snapshot
with_action action s = record s { action = action }

abbrev pub with_constraint : Text → Snapshot → Snapshot
with_constraint instruction s = record s {
  constraints = last_n 10 (
      if any (text_eq instruction) s.constraints
      then s.constraints
      else s.constraints ++ take 2000 instruction ∷ []);
}

unfoldable pub request : ℕ → Text → Action → Box → Result ControlError (Box × Snapshot)
request now run_id action box =
    snapshot run_id box >>= λ s. write now run_id (with_action (some action) s) box

unfoldable pub add_constraint : ℕ → Text → Text → Box → Result ControlError (Box × Snapshot)
add_constraint now run_id instruction box =
    snapshot run_id box >>= λ s. write now run_id (with_constraint instruction s) box

unfoldable pub clear_action : ℕ → Text → Box → Result ControlError (Box × Snapshot)
clear_action now run_id box = snapshot run_id box >>= λ s. write now run_id (with_action none s) box

abbrev pub emptied : ℕ → Text → Snapshot → Box → Result ControlError (Box × List Text)
emptied now run_id s box =
    if is_nil s.constraints
    then ok (box, s.constraints)
    else write now run_id (record s { constraints = [] }) box >>= λ r. ok (r.0, s.constraints)

unfoldable pub take_constraints : ℕ → Text → Box → Result ControlError (Box × List Text)
take_constraints now run_id box = snapshot run_id box >>= λ s. emptied now run_id s box
