-- ===== src/Control/Requests.antt =====
-- What a user sends to runs by the mailbox, and what of it is there for a run.
use ai_team_os.Prelude.{
  ℕ, ◌≤◌, Text, text_eq, ◌≡◌, Bool, false, Option, none, some, List, [], ◌∷◌, ◌++◌, if◌then◌else◌,
  any, length, Result, ok, ◌>>=◌,
}
use ai_team_os.Control.Defs.{
  Action, Snapshot, Box, ControlError, read, request, add_constraint, clear_action,
}

-- What a user sends, and when and to which run.
pub data Command : Type 0 where
  ask : Action → Command
  add : Text → Command
  resume : Command

pub record Sent : Type 0 where
  pub now : ℕ
  pub run_id : Text
  pub command : Command

unfoldable pub send : Command → ℕ → Text → Box → Result ControlError (Box × Snapshot)
send (ask a) now run_id box = request now run_id a box
send (add i) now run_id box = add_constraint now run_id i box
send resume now run_id box = clear_action now run_id box

unfoldable pub send_all : List Sent → Box → Result ControlError Box
send_all [] box = ok box
send_all (c ∷ cs) box = send c.command c.now c.run_id box >>= λ r. send_all cs r.0

abbrev pub instruction_of : Command → Bool → List Text
instruction_of (add i) b = if b then i ∷ [] else []
instruction_of _ b = []

-- The instructions that are sent to a run.
abbrev pub sent_to : Text → List Sent → List Text
sent_to run_id [] = []
sent_to run_id (c ∷ cs) = instruction_of c.command (text_eq c.run_id run_id) ++ sent_to run_id cs

abbrev pub action_after : Command → Option Action → Option Action
action_after (ask a) before = some a
action_after resume before = none
action_after (add i) before = before

-- The action that the last request to pause, to stop or to resume leaves for a run.
abbrev pub asked_last : Text → List Sent → Option Action → Option Action
asked_last run_id [] before = before
asked_last run_id (c ∷ cs) before =
    asked_last run_id cs (if text_eq c.run_id run_id then action_after c.command before else before)

-- Each instruction is no longer than the API lets it be, and none of those before it.
abbrev pub AreNew : List Text → List Text → Type 0
AreNew seen [] = Unit
AreNew seen (i ∷ is) =
    (any (text_eq i) seen ≡ false) × (length i ≤ 2000) × AreNew (seen ++ i ∷ []) is

-- The constraints that wait for a run.
abbrev pub waiting : Text → Box → List Text
waiting run_id box = (read (box run_id)).constraints

abbrev pub action_of : Text → Box → Option Action
action_of run_id box = (read (box run_id)).action
