-- ===== src/Gateway/State.antt =====
-- The state of `ToolGateway` of app/gateway/tool_gateway.py, its tools of app/tools/spec.py, and what a
-- call reads and returns. Hashes, the redaction of secrets, a tool's schema and handler, and the check
-- of an address or a path are parameters; ids and times are arguments. The audit log and events are
-- left out.
use ai_team_os.Prelude.{ℕ, String, Text, codes, Bool, Option, List, Dict, Result, refuse}
use ai_team_os.Permissions.Defs.{PermissionMode, RiskClass}
use ai_team_os.Approval.Defs.{ApprovalService, ApprovalError}
use ai_team_os.Evidence.Defs.{EvidenceWriter, EvidenceRecord, Source, write, count, total_bytes}
use ai_team_os.Evidence.Defs as Evidence
use ai_team_os.Limits.Quota.{ToolQuota}
use ai_team_os.Gateway.Repair.{Arguments}

-- RiskLevel of app/tools/spec.py
pub data RiskLevel : Type 0 where
  safe sensitive dangerous : RiskLevel

abbrev pub risk_text : RiskLevel → Text
risk_text safe = codes "safe"
risk_text sensitive = codes "sensitive"
risk_text dangerous = codes "dangerous"

pub record ToolSpec : Type 0 where
  pub name : String
  -- the name as the classifier reads it, of 1 to 200 characters, the bounds of an `ActionRequest`
  pub name_text : Text
  pub description : Text
  pub risk_level : RiskLevel
  pub read_only : Bool
  pub requires_approval : Bool
  pub roles : List String
  pub permission_risk : Option RiskClass
  pub task_explicit : Bool
  -- the names of `tool_contract`
  pub required : List String
  pub optional : List String
  -- the validator of the schema, if there is one, accepts the arguments
  pub accepts : Arguments → Bool
  pub accepts_url : Option (Text → Bool)
  pub accepts_path : Option (Text → Bool)
  -- what the handler returns, or the text of its exception
  pub handler : Arguments → Result Text Text

pub data CallStatus : Type 0 where
  recorded blocked_call cached_success_result ok_call error_call : CallStatus

pub record CallRecord : Type 0 where
  pub tool : String
  pub idempotency_key : String
  pub status : CallStatus

pub record EvidencePayload : Type 0 where
  pub id : String
  pub tool : String
  pub summary : Text
  pub idempotency_key : String
  pub content_hash : String

pub record CachedResult : Type 0 where
  pub data_text : Text
  pub evidence_id : String
  pub hash : String

pub record ToolGateway : Type 0 where
  pub task_id : String
  pub tools : Dict ToolSpec
  pub seen_keys : List String
  pub tool_calls : List CallRecord
  pub evidence : List EvidencePayload
  -- the tools of the pending approvals
  pub approvals : List String
  pub result_cache : Dict CachedResult
  pub quota : ToolQuota
  pub evidence_writer : Option EvidenceWriter
  pub approval_service : Option ApprovalService
  -- the handlers that were called, the last one at the end: what happens outside of the object
  pub runs : List (String × Arguments)

-- What a call reads of its surroundings.
pub record Surroundings : Type 0 where
  pub now : ℕ
  pub new_id : String
  pub mode : PermissionMode
  pub key_of : String → Arguments → String
  pub parameter_hash_of : Arguments → String
  pub content_hash_of : Text → String
  pub redact : Text → Text
  pub source_of : ToolSpec → Arguments → Source
  pub writing : Evidence.Surroundings

pub data ToolResult : Type 0 where
  unknown_tool role_denied schema_rejected url_rejected path_rejected quota_exceeded : ToolResult
  argument_missing : List String → ToolResult
  cached : CachedResult → ToolResult
  duplicate_skipped hard_blocked approval_not_found approval_required : ToolResult
  approval_invalid : ApprovalError → ToolResult
  handler_failed : Text → ToolResult
  evidence_quota read_quota : ToolResult
  -- a `KeyError` of the evidence writer
  raised : ToolResult
  success : Text → String → ToolResult

abbrev pub Outcome : Type 0
Outcome = ToolGateway × ToolResult

-- A stage goes on, or the call returns.
abbrev pub Stage : Type 0 → Type 0
Stage A = Result Outcome A

abbrev pub deny : Bool → ToolGateway → ToolResult → Stage (Unit {0})
deny test g r = refuse test (g, r)
