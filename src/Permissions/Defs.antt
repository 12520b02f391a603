-- ===== src/Permissions/Defs.antt =====
-- The enumerations, `RiskClassifier.classify` and `PermissionPolicy.decide` of
-- app/security/permissions.py.
use ai_team_os.Prelude.{
  String, Text, codes, lower, contains_any, text_eq, any, Bool, true, false, not, ◌&&◌, Option,
  none, some, List, [], ◌∷◌, ◌++◌, if◌then◌else◌, str_eq,
}

pub data PermissionMode : Type 0 where
  safe standard maximum : PermissionMode

-- The text of a `StrEnum` member.
abbrev pub mode_value : PermissionMode → String
mode_value safe = "safe"
mode_value standard = "standard"
mode_value maximum = "maximum"

-- `none` is the `ValueError` of `cls(value)`.
unfoldable pub normalize : String → Option PermissionMode
normalize value =
    if str_eq value "full_access"
    then some maximum
    else if str_eq value "safe"
    then some safe
    else if str_eq value "standard"
    then some standard
    else if str_eq value "maximum"
    then some maximum
    else none

pub data RiskClass : Type 0 where
  read_only low normal sensitive destructive external_effect system forbidden : RiskClass

pub data ActionDecision : Type 0 where
  allow ask block : ActionDecision

-- A request as it was built; the bounds of its texts are tested by those who build it.
pub record ActionRequest : Type 0 where
  pub action : Text
  pub risk : RiskClass
  pub target : Text
  pub task_id : Option String
  pub task_explicit : Bool
  pub source : String

pub record PolicyDecision : Type 0 where
  pub mode : PermissionMode
  pub risk : RiskClass
  pub decision : ActionDecision
  pub reason : String
  pub action : Text
  pub target : Text

abbrev pub forbidden_markers : List String
forbidden_markers =
    "extract_password" ∷ "read_password_field" ∷ "export_browser_password" ∷ "credential_manager"
    ∷ "extract_secret" ∷ "export_private_key" ∷ "bypass_uac" ∷ "click_uac_yes"
    ∷ "administrator_password" ∷ "disable_safety" ∷ "modify_safety_kernel" ∷ "bypass_secret_store"
    ∷ "bypass_stop" ∷ "agent_change_permission_mode" ∷ "prompt_change_permission_mode" ∷ []

abbrev pub external_markers : List String
external_markers =
    "git_push" ∷ "upload" ∷ "send_email" ∷ "send_message" ∷ "publish" ∷ "submit_form" ∷ "deploy"
    ∷ "release" ∷ []

abbrev pub sensitive_markers : List String
sensitive_markers =
    "sensitive_data" ∷ "private_data" ∷ "financial" ∷ "legal_submission" ∷ "purchase" ∷ "payment"
    ∷ "order" ∷ []

abbrev pub system_markers : List String
system_markers =
    "install_software" ∷ "uninstall_software" ∷ "system_settings" ∷ "startup_item"
    ∷ "registry_write" ∷ []

abbrev pub destructive_markers : List String
destructive_markers = "delete" ∷ "remove" ∷ "close_window" ∷ "overwrite_important" ∷ []

abbrev pub low_actions : List String
low_actions = "windows_launch_app" ∷ "windows_focus_window" ∷ "windows_open_safe_path" ∷ []

-- The text that the markers are looked for in.
abbrev pub marker_text : Text → Text → Text
marker_text action target = lower (action ++ codes " " ++ target)

-- The marker sets stay shut behind these tests.
unfoldable pub is_forbidden_text : Text → Bool
is_forbidden_text text = contains_any forbidden_markers text

unfoldable pub is_sensitive_text : Text → Bool
is_sensitive_text text = contains_any sensitive_markers text

unfoldable pub is_external_text : Text → Bool
is_external_text text = contains_any external_markers text

unfoldable pub is_system_text : Text → Bool
is_system_text text = contains_any system_markers text

unfoldable pub is_destructive_text : Text → Bool
is_destructive_text text = contains_any destructive_markers text

unfoldable pub is_low_action : Text → Bool
is_low_action action = any (λ a. text_eq (codes a) action) low_actions

unfoldable pub classify : Text → Bool → Text → Text → RiskClass
classify action is_read_only risk_hint target =
    let text = marker_text action target in
    if is_forbidden_text text
    then forbidden
    else if is_sensitive_text text
    then sensitive
    else if is_external_text text
    then external_effect
    else if is_system_text text
    then system
    else if is_read_only
    then read_only
    else if is_destructive_text text
    then destructive
    else if is_low_action action
    then low
    else if text_eq (lower risk_hint) (codes "dangerous")
    then destructive
    else normal

abbrev pub is_forbidden : RiskClass → Bool
is_forbidden forbidden = true
is_forbidden _ = false

abbrev pub automatic_in_safe : RiskClass → Bool
automatic_in_safe read_only = true
automatic_in_safe low = true
automatic_in_safe _ = false

abbrev pub automatic_in_standard : RiskClass → Bool
automatic_in_standard read_only = true
automatic_in_standard low = true
automatic_in_standard normal = true
automatic_in_standard _ = false

abbrev pub is_sensitive : RiskClass → Bool
is_sensitive sensitive = true
is_sensitive _ = false

abbrev pub is_outward : RiskClass → Bool
is_outward external_effect = true
is_outward system = true
is_outward _ = false

abbrev pub result : PermissionMode → ActionRequest → ActionDecision → String → PolicyDecision
result mode request decision reason = record {
  mode = mode;
  risk = request.risk;
  decision = decision;
  reason = reason;
  action = request.action;
  target = request.target;
}

decide_safe : ActionRequest → PolicyDecision
decide_safe request =
    if automatic_in_safe request.risk
    then result safe request allow
        "Read-only and genuinely low-risk actions are automatic in Safe mode."
    else result safe request ask
        "Safe mode requires confirmation for write, execution, and state changes."

decide_standard : ActionRequest → PolicyDecision
decide_standard request =
    if automatic_in_standard request.risk
    then result standard request allow "Normal task operations are automatic in Standard mode."
    else result standard request ask
        "Sensitive, destructive, external, or system effects require confirmation."

decide_maximum : ActionRequest → PolicyDecision
decide_maximum request =
    if is_sensitive request.risk
    then result maximum request ask
        "A sensitive final effect requires one user confirmation even in Maximum mode."
    else if is_outward request.risk && not request.task_explicit
    then result maximum request ask
        "Maximum mode cannot expand the user's goal to an unrequested external effect."
    else result maximum request allow
        "The action is directly required by the task and is automatic in Maximum mode."

decide_by_mode : PermissionMode → ActionRequest → PolicyDecision
unfolding decide_safe decide_standard decide_maximum
decide_by_mode safe = decide_safe
decide_by_mode standard = decide_standard
decide_by_mode maximum = decide_maximum

unfoldable pub decide : PermissionMode → ActionRequest → PolicyDecision
unfolding decide_by_mode
decide mode request =
    if is_forbidden request.risk
    then result mode request block
        "Hard Safety Kernel forbids this action in every permission mode."
    else decide_by_mode mode request
