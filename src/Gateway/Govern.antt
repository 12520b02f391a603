-- ===== src/Gateway/Govern.antt =====
-- The policy and the approval in `_invoke` of app/gateway/tool_gateway.py. The policy decides at the
-- mode that is in force at the call. The test `needs_governance` only chooses what is audited: a
-- decision to ask is governed in any case, and one to allow in none.
use ai_team_os.Prelude.{
  String, Text, Option, none, some, [], ◌∷◌, ◌++◌, if◌then◌else◌, str_eq, is_nil, take, lookup,
  Result, ok, err,
}
use ai_team_os.Permissions.Defs.{RiskClass, ActionDecision, allow, ask, block, classify, decide}
use ai_team_os.Approval.Defs.{ApprovalService, ApprovalRequest, ApprovalError, verify_execution}
use ai_team_os.Limits.Quota.{ToolExecutionContext}
use ai_team_os.Gateway.Repair.{Arguments}
use ai_team_os.Gateway.State.{
  risk_text, ToolSpec, ToolGateway, Surroundings, Stage, recorded, blocked_call, hard_blocked,
  approval_not_found, approval_required, approval_invalid,
}
use ai_team_os.Gateway.Defs.{add_call}

-- str(args.get("path") or args.get("url") or "")
abbrev pub or_text : Option Text → Text → Text
or_text none d = d
or_text (some t) d = if is_nil t then d else t

abbrev pub target_of : Arguments → Text
target_of args = or_text (lookup "path" args) (or_text (lookup "url" args) [])

abbrev pub risk_of : ToolSpec → Arguments → RiskClass
risk_of tool args = elim tool.permission_risk [
  | some r ↦ r
  | none ↦ classify tool.name_text tool.read_only (risk_text tool.risk_level) (target_of args)
]

unfoldable pub decision_of : Surroundings → ToolSpec → Arguments → ToolGateway → ActionDecision
decision_of w tool args g =
    (decide w.mode (record {
      action = tool.name_text;
      risk = risk_of tool args;
      target = take 1000 (target_of args);
      task_id = some g.task_id;
      task_explicit = tool.task_explicit;
      source = "tool_gateway";
    })).decision

abbrev pub answered :
    ToolSpec → String → Result ApprovalError (Unit {0}) → ToolGateway → Stage ToolGateway
answered tool key (ok u) g = ok g
answered tool key (err e) g = err (add_call tool.name key recorded g, approval_invalid e)

-- The approval that the context names, which must be valid for these parameters.
abbrev pub verified :
    Surroundings
    → ToolSpec
    → String
    → Arguments
    → ApprovalRequest
    → ApprovalService
    → ToolGateway
    → Stage ToolGateway
verified w tool key args r service g =
    let v =
      verify_execution w.now (w.parameter_hash_of args) "" (some r.operation_hash) r service in
    answered tool key v.1 (record g { approval_service = some v.0 })

abbrev pub with_request :
    Surroundings
    → ToolSpec
    → String
    → Arguments
    → Option ApprovalRequest
    → ApprovalService
    → ToolGateway
    → Stage ToolGateway
with_request w tool key args none service g =
    err (add_call tool.name key recorded g, approval_not_found)
with_request w tool key args (some r) service g = verified w tool key args r service g

-- Without an approval the call waits for one.
abbrev pub pend : ToolSpec → String → Option ApprovalService → ToolGateway → Stage ToolGateway
pend tool key none g = err (
  add_call tool.name key blocked_call
      (record g { seen_keys = key ∷ g.seen_keys; approvals = g.approvals ++ tool.name ∷ [] }),
  approval_required,
)
pend tool key (some service) g = err (
  add_call tool.name key blocked_call (record g { approvals = g.approvals ++ tool.name ∷ [] }),
  approval_required,
)

-- `ctx and ctx.approval_id`
abbrev pub approval_named : Option ToolExecutionContext → Option String
approval_named none = none
approval_named (some ctx) = elim ctx.approval_id [
  | none ↦ none
  | some id ↦ if str_eq id "" then none else some id
]

abbrev pub by_approval :
    Surroundings
    → ToolSpec
    → String
    → Arguments
    → Option String
    → Option ApprovalService
    → ToolGateway
    → Stage ToolGateway
by_approval w tool key args none service g = pend tool key service g
by_approval w tool key args (some id) none g = pend tool key none g
by_approval w tool key args (some id) (some service) g =
    with_request w tool key args (lookup id service.requests) service g

abbrev pub by_decision :
    ActionDecision
    → Surroundings
    → ToolSpec
    → String
    → Arguments
    → Option ToolExecutionContext
    → ToolGateway
    → Stage ToolGateway
by_decision block w tool key args ctx g = err (add_call tool.name key blocked_call g, hard_blocked)
by_decision allow w tool key args ctx g = ok g
by_decision ask w tool key args ctx g =
    by_approval w tool key args (approval_named ctx) g.approval_service g

unfoldable pub govern :
    Surroundings
    → ToolSpec
    → String
    → Arguments
    → Option ToolExecutionContext
    → ToolGateway
    → Stage ToolGateway
govern w tool key args ctx g = by_decision (decision_of w tool args g) w tool key args ctx g
