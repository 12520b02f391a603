-- ===== src/Permissions/Store.antt =====
-- `PermissionStore` and `PermissionRuntime` of app/security/permissions.py. The SQLite tables are
-- the one row of the setting and the list of recorded actions, the newest first; a transaction is
-- one function.
use ai_team_os.Prelude.{
  not, is_nil, leb, length, ℕ, ◌+◌, String, Text, Bool, true, false, ◌&&◌, Option, none, some, List,
  [], ◌∷◌, if◌then◌else◌, str_eq, Result, ok, err, ◌>>=◌, ◌>>◌, require,
}
use ai_team_os.Permissions.Defs.{
  PermissionMode, maximum, mode_value, normalize, ActionRequest, PolicyDecision, allow,
  ActionDecision, RiskClass, classify, decide,
}

pub data PermissionError : Type 0 where
  user_action_required confirmation_required invalid_mode invalid_request : PermissionError

-- The row of `permission_setting`.
pub record Setting : Type 0 where
  pub mode : String
  pub changed_at : ℕ
  pub changed_by_user : Bool
  pub version : ℕ
  pub maximum_confirmed_at : Option ℕ

pub record ActionRecord : Type 0 where
  pub timestamp : ℕ
  pub task_id : Option String
  pub decided : PolicyDecision

pub record PermissionStore : Type 0 where
  pub setting : Setting
  pub actions : List ActionRecord

-- The row that `_initialize` inserts.
unfoldable pub initialize : ℕ → PermissionStore
initialize now = record {
  setting = record {
    mode = "standard";
    changed_at = now;
    changed_by_user = false;
    version = 1;
    maximum_confirmed_at = none;
  };
  actions = [];
}

abbrev pub parse_mode : String → Result PermissionError PermissionMode
parse_mode value = elim (normalize value) [ none ↦ err invalid_mode | some m ↦ ok m ]

-- The mode of `get()`.
unfoldable pub current_mode : PermissionStore → Result PermissionError PermissionMode
current_mode s = parse_mode s.setting.mode

abbrev pub is_maximum : PermissionMode → Bool
is_maximum maximum = true
is_maximum _ = false

-- The confirmation that the updated row holds.
abbrev pub confirm_maximum :
    ℕ → Bool → PermissionMode → Option ℕ → Result PermissionError (Option ℕ)
confirm_maximum now confirmed mode (some at) = ok (some at)
confirm_maximum now confirmed mode none =
    if is_maximum mode
    then (if confirmed then ok (some now) else err confirmation_required)
    else ok none

abbrev pub update_setting : ℕ → PermissionMode → Option ℕ → Setting → Setting
update_setting now mode confirmed_at row = record row {
  mode = mode_value mode;
  changed_at = now;
  changed_by_user = true;
  version = row.version + 1;
  maximum_confirmed_at = confirmed_at;
}

-- `set_mode`: the new store and the old mode, or the exception, which leaves the row as it was.
unfoldable pub set_mode :
    ℕ
    → String
    → Bool
    → Bool
    → String
    → PermissionStore
    → Result PermissionError (PermissionStore × PermissionMode)
set_mode now mode changed_by_user confirmed source s = do
  require (changed_by_user && str_eq source "user_explicit_action") user_action_required
  normalized ← parse_mode mode
  old ← parse_mode s.setting.mode
  confirmed_at ← confirm_maximum now confirmed normalized s.setting.maximum_confirmed_at
  ok (record s { setting = update_setting now normalized confirmed_at s.setting }, old)

abbrev pub is_allow : ActionDecision → Bool
is_allow allow = true
is_allow _ = false

unfoldable pub record_action :
    ℕ → PolicyDecision → Option String → PermissionStore → PermissionStore
record_action now decision task_id s = record s {
  actions = record { timestamp = now; task_id = task_id; decided = decision } ∷ s.actions;
}

abbrev pub explained_request : Text → RiskClass → Text → Bool → String → ActionRequest
explained_request action risk target task_explicit source = record {
  action = action;
  risk = risk;
  target = target;
  task_id = none;
  task_explicit = task_explicit;
  source = source;
}

abbrev pub given_risk : Text → Bool → Text → Option RiskClass → RiskClass
given_risk action is_read_only target none = classify action is_read_only [] target
given_risk action is_read_only target (some risk) = risk

-- The `ValidationError` of an `ActionRequest`: an action of 1 to 200 characters, and a target of up to
-- 1000.
unfoldable pub valid_request : ActionRequest → Result PermissionError ActionRequest
valid_request r =
    if not (is_nil r.action) && leb (length r.action) 200 && leb (length r.target) 1000
    then ok r
    else err invalid_request

-- `explain`, for a risk that is classified or given.
unfoldable pub explain :
    Text
    → Bool
    → Option RiskClass
    → Text
    → Bool
    → String
    → PermissionStore
    → Result PermissionError PolicyDecision
explain action is_read_only risk target task_explicit source s = do
  mode ← current_mode s
  let classified = given_risk action is_read_only target risk
  request ← valid_request (explained_request action classified target task_explicit source)
  ok (decide mode request)

-- `PermissionRuntime.decide`, whose mode provider reads the store.
unfoldable pub runtime_decide :
    ℕ
    → ActionRequest
    → Bool
    → PermissionStore
    → Result PermissionError (PermissionStore × PolicyDecision)
runtime_decide now request wants_record s = do
  mode ← current_mode s
  let decision = decide mode request
  let kept =
      if wants_record && is_allow decision.decision
      then record_action now decision request.task_id s
      else s
  ok (kept, decision)
