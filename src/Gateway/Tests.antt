-- ===== src/Gateway/Tests.antt =====
-- Calls of small tools, and the theorems at them.
use ai_team_os.Prelude.{
  String, codes, ◌≡◌, refl, ◌⊎◌, true, false, Option, none, some, [], ◌∷◌, lookup, insert, ok,
  length,
}
use ai_team_os.Permissions.Defs.{destructive, standard, decide}
use ai_team_os.Approval.Defs.{ApprovalRequest, approved, verify_execution, is_expired}
use ai_team_os.Limits.Quota.{
  ToolExecutionContext, new_quota, check_and_reserve, calls_for, check_evidence,
}
use ai_team_os.Gateway.Repair.{Arguments, prepare, normalize}
use ai_team_os.Gateway.State.{
  ToolSpec, ToolGateway, Surroundings, success, approval_required, dangerous,
}
use ai_team_os.Gateway.Defs.{
  check_call, find_tool, reserve_if, reserve, check_seen, hit_for, from_evidence,
}
use ai_team_os.Gateway.Govern.{govern, decision_of}
use ai_team_os.Gateway.Invoke.{invoke, guarded, run_handler}
use ai_team_os.Gateway.Guards.{IsPermitted}
use ai_team_os.Gateway.Laws.{handler_guarded}
use ai_team_os.Gateway.Once.{writes_run_once}

-- A tool that removes a file.
abbrev delete_tool : ToolSpec
delete_tool = record {
  name = "sandbox_delete_file";
  name_text = codes "sandbox_delete_file";
  description = codes "deletes";
  risk_level = dangerous;
  read_only = false;
  requires_approval = true;
  roles = "executor" ∷ [];
  permission_risk = some destructive;
  task_explicit = true;
  required = "path" ∷ [];
  optional = [];
  accepts = λ a. true;
  accepts_url = none;
  accepts_path = none;
  handler = λ a. ok (codes "done");
}

-- An approval that was given for another tool.
abbrev write_approval : ApprovalRequest
write_approval = record {
  approval_id = "ap1";
  task_id = "t";
  run_id = none;
  subtask_id = none;
  action_type = "file_write";
  tool_name = "sandbox_write_file";
  risk_level = "sensitive";
  approval_level = "single";
  summary = "write";
  target_paths = [];
  command_argv = [];
  diff_ref = none;
  estimated_file_changes = 1;
  estimated_runtime = 0;
  requested_at = 0;
  status = approved;
  operation_hash = "hash of sandbox_write_file";
  parameter_hash = "hash of the arguments";
  target_hash = "";
  expires_at = none;
  decided_at = some 1;
  decision_reason = none;
}

abbrev gateway : ToolGateway
gateway = record {
  task_id = "t";
  tools = ("sandbox_delete_file", delete_tool) ∷ [];
  seen_keys = [];
  tool_calls = [];
  evidence = [];
  approvals = [];
  result_cache = [];
  quota = new_quota (record {
    read_only_only = true;
    max_calls_per_subtask = 10;
    max_evidence_per_task = 200;
    max_read_bytes_per_task = 5242880;
  });
  evidence_writer = none;
  approval_service = some (record {
    ttl_seconds = 60;
    requests = ("ap1", write_approval) ∷ [];
    persistent = false;
    log = [];
  });
  runs = [];
}

abbrev at_standard : Surroundings
at_standard = record {
  now = 5;
  new_id = "e1";
  mode = standard;
  key_of = λ name a. name;
  parameter_hash_of = λ a. "hash of the arguments";
  content_hash_of = λ d. "c";
  redact = λ d. d;
  source_of = λ t a. record {
    tool_name = t.name;
    source_type = "tool";
    source_uri = "uri";
    title = [];
    content_type = "text";
    subtask_id = none;
  };
  writing = record { content_hash_of = λ d. "c"; byte_length = length; redact = λ d. d };
}

abbrev arguments : Arguments
arguments = ("path", codes "a.txt") ∷ []

abbrev context : Option String → Option ToolExecutionContext
context approval = some (record {
  task_id = "t";
  subtask_id = "s";
  role = "executor";
  tool_call_budget = 5;
  max_evidence = 50;
  max_read_bytes = 2097152;
  approval_id = approval;
  replay = false;
})

-- Without an approval the handler is not run.
waits :
    (invoke at_standard "sandbox_delete_file" arguments "" (context none) gateway).1
    ≡ approval_required
unfolding invoke find_tool lookup check_call prepare guarded reserve_if reserve check_and_reserve
    calls_for check_evidence check_seen hit_for from_evidence govern decision_of decide
    verify_execution is_expired run_handler insert normalize
waits = refl

-- The approval of a write lets a removal through, when the arguments are the same.
other_tool_approved :
    (invoke at_standard "sandbox_delete_file" arguments "" (context (some "ap1")) gateway).1
    ≡ success (codes "done") "e1"
unfolding invoke find_tool lookup check_call prepare guarded reserve_if reserve check_and_reserve
    calls_for check_evidence check_seen hit_for from_evidence govern decision_of decide
    verify_execution is_expired run_handler insert normalize
other_tool_approved = refl

abbrev after_call : ToolGateway
after_call =
    (invoke at_standard "sandbox_delete_file" arguments "" (context (some "ap1")) gateway).0

arguments_checked :
    check_call delete_tool arguments "" (context (some "ap1")) gateway ≡ ok arguments
unfolding check_call prepare
arguments_checked = refl

removed_once : after_call.runs ≡ ("sandbox_delete_file", arguments) ∷ []
unfolding invoke find_tool lookup check_call prepare guarded reserve_if reserve check_and_reserve
    calls_for check_evidence check_seen hit_for from_evidence govern decision_of decide
    verify_execution is_expired run_handler insert normalize
removed_once = refl

still_named : lookup "sandbox_delete_file" after_call.tools ≡ some delete_tool
unfolding invoke find_tool lookup check_call prepare guarded reserve_if reserve check_and_reserve
    calls_for check_evidence check_seen hit_for from_evidence govern decision_of decide
    verify_execution is_expired run_handler insert normalize
still_named = refl

checked_again : check_call delete_tool arguments "" (context (some "ap1")) after_call ≡ ok arguments
unfolding invoke find_tool lookup check_call prepare guarded reserve_if reserve check_and_reserve
    calls_for check_evidence check_seen hit_for from_evidence govern decision_of decide
    verify_execution is_expired run_handler insert normalize
checked_again = refl

writes_run_once_example :
    (invoke at_standard "sandbox_delete_file" arguments "" (context (some "ap1")) after_call).0.runs
    ≡ after_call.runs
unfolding lookup
writes_run_once_example =
    writes_run_once at_standard at_standard "sandbox_delete_file" arguments arguments "" ""
      (context (some "ap1")) (context (some "ap1")) gateway delete_tool arguments arguments refl
      refl arguments_checked (λ e. cc (removed_once, e)) (λ t e. cc (other_tool_approved, e))
      still_named checked_again refl

handler_guarded_example :
    ((invoke at_standard "sandbox_delete_file" arguments "" (context none) gateway).0.runs ≡ [])
    ⊎ ((tool : ToolSpec) × (used : Arguments) × (lookup "sandbox_delete_file" gateway.tools
          ≡ some tool)
        × (check_call tool arguments "" (context none) gateway ≡ ok used)
        × IsPermitted at_standard tool used (context none) gateway
        × ((invoke at_standard "sandbox_delete_file" arguments "" (context none) gateway).0.runs
            ≡ (tool.name, used) ∷ []))
handler_guarded_example =
    handler_guarded at_standard "sandbox_delete_file" arguments "" (context none) gateway
