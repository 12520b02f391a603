-- ===== src/Gateway/Invoke.antt =====
-- The end of `_invoke`: the handler, its record, and its evidence; and the whole call.
use ai_team_os.Prelude.{
  String, Text, take, true, false, Option, none, some, [], ◌∷◌, ◌++◌, insert, Result, ok, err,
  ◌>>=◌, if◌then◌else◌,
}
use ai_team_os.Evidence.Defs.{
  EvidenceWriter, EvidenceRecord, EvidenceError, missing_record, Source, write,
}
use ai_team_os.Evidence.Defs as Evidence
use ai_team_os.Limits.Quota.{ToolExecutionContext, QuotaError, check_read_bytes}
use ai_team_os.Gateway.Repair.{Arguments}
use ai_team_os.Gateway.State.{
  ToolSpec, ToolGateway, CallStatus, blocked_call, ok_call, error_call, Surroundings,
  handler_failed, evidence_quota, read_quota, raised, success, Outcome, Stage,
}
use ai_team_os.Gateway.Defs.{
  add_call, use_of, find_tool, check_call, reserves_first, reserve_if, check_seen,
}
use ai_team_os.Gateway.Govern.{govern}

-- The call of the handler.
abbrev pub called : ToolSpec → Arguments → ToolGateway → ToolGateway
called tool args g = record g { runs = g.runs ++ (tool.name, args) ∷ [] }

-- After a handler that has returned.
abbrev pub done_with : ToolSpec → String → CallStatus → ToolGateway → ToolGateway
done_with tool key status g =
    add_call tool.name key status (record g { seen_keys = key ∷ g.seen_keys })

-- The evidence and the kept result of a success.
abbrev pub keep : Surroundings → ToolSpec → String → Text → String → String → ToolGateway → Outcome
keep w tool key data_text id hash g = (
  record g {
    evidence =
        g.evidence
        ++ record {
          id = id;
          tool = tool.name;
          summary = take 200 (w.redact data_text);
          idempotency_key = key;
          content_hash = hash;
        }
          ∷ [];
    result_cache =
        insert key (record { data_text = data_text; evidence_id = id; hash = hash }) g.result_cache;
  },
  success data_text id,
)

-- What the evidence writer answered.
abbrev pub written :
    Surroundings
    → ToolSpec
    → String
    → Text
    → EvidenceWriter × Result EvidenceError EvidenceRecord
    → ToolGateway
    → Outcome
written w tool key data_text (writer, ok r) g =
    keep w tool key data_text r.evidence_id r.content_hash
      (done_with tool key ok_call (record g { evidence_writer = some writer }))
written w tool key data_text (writer, err missing_record) g =
    (done_with tool key ok_call (record g { evidence_writer = some writer }), raised)
written w tool key data_text (writer, err (Evidence.quota_exceeded n)) g =
    (done_with tool key blocked_call (record g { evidence_writer = some writer }), evidence_quota)

-- With room for the bytes that are read, or not.
abbrev pub with_room :
    Surroundings
    → ToolSpec
    → String
    → Arguments
    → Text
    → EvidenceWriter
    → Result QuotaError (Unit {0})
    → ToolGateway
    → Outcome
with_room w tool key args data_text writer (err e) g =
    (done_with tool key blocked_call g, read_quota)
with_room w tool key args data_text writer (ok u) g =
    written w tool key data_text
      (write w.writing w.new_id w.now (w.source_of tool args) data_text writer) g

abbrev pub with_writer :
    Surroundings
    → ToolSpec
    → String
    → Arguments
    → Text
    → Option EvidenceWriter
    → ToolGateway
    → Outcome
with_writer w tool key args data_text none g =
    keep w tool key data_text w.new_id (w.content_hash_of data_text) (done_with tool key ok_call g)
with_writer w tool key args data_text (some writer) g =
    with_room w tool key args data_text writer
      (check_read_bytes (use_of (some writer)) (w.writing.byte_length data_text) g.quota) g

abbrev pub after_handler :
    Surroundings → ToolSpec → String → Arguments → Result Text Text → ToolGateway → Outcome
after_handler w tool key args (err e) g =
    (add_call tool.name key error_call g, handler_failed (w.redact e))
after_handler w tool key args (ok data_text) g =
    with_writer w tool key args data_text g.evidence_writer g

unfoldable pub run_handler : Surroundings → ToolSpec → String → Arguments → ToolGateway → Outcome
run_handler w tool key args g =
    after_handler w tool key args (tool.handler args) (called tool args g)

-- What is returned by a stage that ended the call, or else by the last one.
abbrev pub returned : Stage Outcome → Outcome
returned (ok o) = o
returned (err o) = o

-- The stages after the arguments are prepared.
unfoldable pub guarded :
    Surroundings
    → ToolSpec
    → Arguments
    → Option ToolExecutionContext
    → ToolGateway
    → Stage ToolGateway
guarded w tool args ctx g = do
  g1 ← reserve_if (reserves_first ctx) ctx g
  g2 ← check_seen tool (w.key_of tool.name args) g1
  g3 ← reserve_if (if reserves_first ctx then false else true) ctx g2
  govern w tool (w.key_of tool.name args) args ctx g3

abbrev pub run_tool :
    Surroundings
    → Arguments
    → String
    → Option ToolExecutionContext
    → ToolGateway
    → ToolSpec
    → Stage Outcome
run_tool w args role ctx g tool = do
  args' ← check_call tool args role ctx g
  g' ← guarded w tool args' ctx g
  ok (run_handler w tool (w.key_of tool.name args') args' g')

unfoldable pub invoke :
    Surroundings → String → Arguments → String → Option ToolExecutionContext → ToolGateway → Outcome
invoke w name args role ctx g =
    returned (find_tool name g >>= λ tool. run_tool w args role ctx g tool)
