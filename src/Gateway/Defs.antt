-- ===== src/Gateway/Defs.antt =====
-- The first guards of `_invoke` of app/gateway/tool_gateway.py: the tool, the role, the arguments, the
-- quota, and the calls that were seen.
use ai_team_os.Prelude.{
  String, Text, Bool, true, false, not, ◌&&◌, Option, none, some, List, [], ◌∷◌, ◌++◌,
  if◌then◌else◌, str_eq, elem, is_nil, filter, lookup, insert, Result, ok, err, ◌>>◌,
}
use ai_team_os.Evidence.Defs.{EvidenceWriter, count, total_bytes}
use ai_team_os.Limits.Quota.{
  ToolExecutionContext, QuotaError, WriterUse, check_and_reserve, check_evidence,
}
use ai_team_os.Gateway.Repair.{Arguments, prepare}
use ai_team_os.Gateway.State.{
  ToolSpec, CallStatus, EvidencePayload, CachedResult, ToolGateway, Stage, deny,
  cached_success_result, unknown_tool, role_denied, schema_rejected, url_rejected, path_rejected,
  quota_exceeded, argument_missing, cached, duplicate_skipped,
}

abbrev pub found_tool : Option ToolSpec → ToolGateway → Stage ToolSpec
found_tool none g = err (g, unknown_tool)
found_tool (some t) g = ok t

unfoldable pub find_tool : String → ToolGateway → Stage ToolSpec
find_tool name g = found_tool (lookup name g.tools) g

-- role or (ctx.role if ctx else None) or ""
abbrev pub effective_role : String → Option ToolExecutionContext → String
effective_role role none = role
effective_role role (some ctx) = if str_eq role "" then ctx.role else role

abbrev pub accepted_by : Option (Text → Bool) → Option Text → Bool
accepted_by none value = true
accepted_by (some check) none = true
accepted_by (some check) (some value) = check value

-- The role, the arguments, the address and the path.
unfoldable pub check_call :
    ToolSpec → Arguments → String → Option ToolExecutionContext → ToolGateway → Stage Arguments
check_call tool args role ctx g =
    let p = prepare args (tool.required ++ tool.optional) tool.required in
    do
      deny (not (is_nil tool.roles) && not (elem (effective_role role ctx) tool.roles)) g
          role_denied
      deny (not (is_nil p.missing)) g (argument_missing p.missing)
      deny (not (tool.accepts p.args)) g schema_rejected
      deny (not (accepted_by tool.accepts_url (lookup "url" p.args))) g url_rejected
      deny
          (not (
            accepted_by tool.accepts_path (lookup "path" p.args)
            && accepted_by tool.accepts_path (lookup "dir" p.args)))
          g path_rejected
      ok p.args

abbrev pub use_of : Option EvidenceWriter → Option WriterUse
use_of none = none
use_of (some w) = some (record { count = count w; total_bytes = total_bytes w })

abbrev pub reserve_with :
    Result QuotaError (Unit {0}) → Result QuotaError (Unit {0}) → ToolGateway → Stage ToolGateway
reserve_with (err e) evidence g = err (g, quota_exceeded)
reserve_with (ok u) (err e) g = err (g, quota_exceeded)
reserve_with (ok u) (ok v) g = ok g

-- The quota of calls is taken, and then that of evidence is looked at.
unfoldable pub reserve : Option ToolExecutionContext → ToolGateway → Stage ToolGateway
reserve ctx g =
    let q = check_and_reserve ctx g.quota in
    reserve_with q.1 (check_evidence (use_of g.evidence_writer) q.0) (record g { quota = q.0 })

-- `ctx is not None and not ctx.replay`
abbrev pub reserves_first : Option ToolExecutionContext → Bool
reserves_first none = false
reserves_first (some ctx) = not ctx.replay

unfoldable pub reserve_if : Bool → Option ToolExecutionContext → ToolGateway → Stage ToolGateway
unfolding reserve
reserve_if test ctx g = if test then reserve ctx g else ok g

-- The last evidence with the key, as a result.
unfoldable pub from_evidence : String → List EvidencePayload → Option CachedResult
from_evidence key [] = none
from_evidence key (e ∷ es) =
    let rest = from_evidence key es in
    elim rest [
      | some c ↦ some c
      | none ↦
          if str_eq e.idempotency_key key
          then some (record { data_text = e.summary; evidence_id = e.id; hash = e.content_hash })
          else none
    ]

-- The result that is kept for a key, or is rebuilt from the evidence.
unfoldable pub hit_for : String → ToolGateway → Option CachedResult
unfolding from_evidence
hit_for key g = elim (lookup key g.result_cache) [
  | some c ↦ some c
  | none ↦ from_evidence key g.evidence
]

abbrev pub add_call : String → String → CallStatus → ToolGateway → ToolGateway
add_call name key status g = record g {
  tool_calls = g.tool_calls ++ record { tool = name; idempotency_key = key; status = status } ∷ [];
}

-- self._seen_keys.discard(key)
abbrev pub discard : String → List String → List String
discard key = filter (λ k. not (str_eq k key))

-- A call whose key was seen: a kept result comes again; without one a tool that writes is not run
-- again, and one that only reads may be.
abbrev pub seen_call : ToolSpec → String → Option CachedResult → ToolGateway → Stage ToolGateway
seen_call tool key (some hit) g = err (
  add_call tool.name key cached_success_result
      (record g { result_cache = insert key hit g.result_cache }),
  cached hit,
)
seen_call tool key none g =
    if not tool.read_only
    then err (g, duplicate_skipped)
    else ok (record g { seen_keys = discard key g.seen_keys })

unfoldable pub check_seen : ToolSpec → String → ToolGateway → Stage ToolGateway
unfolding hit_for
check_seen tool key g = if elem key g.seen_keys then seen_call tool key (hit_for key g) g else ok g
