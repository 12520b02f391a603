-- ===== src/Gateway/Once.antt =====
-- A write that was run is not run a second time.
use ai_team_os.Prelude.{
  String, Text, ◌≡◌, ◌≢◌, refl, sym, ap, subst, ◌∙◌, ◌⊎◌, inl, inr, true, false, Option, none, some,
  List, ◌∷◌, elem, lookup, Result, ok, err, eq_iff, arith,
}
use ai_team_os.Evidence.Defs.{
  EvidenceWriter, EvidenceRecord, EvidenceError, quota_exceeded, missing_record,
}
use ai_team_os.Limits.Quota.{ToolExecutionContext, QuotaError}
use ai_team_os.Gateway.Repair.{Arguments}
use ai_team_os.Gateway.State.{ToolSpec, ToolGateway, Surroundings, Outcome, handler_failed}
use ai_team_os.Gateway.Defs.{check_call}
use ai_team_os.Gateway.Stages.{ok_inj}
use ai_team_os.Gateway.Invoke.{
  run_handler, after_handler, with_room, with_writer, written, called, invoke,
}
use ai_team_os.Gateway.Laws.{invoke-cases, seen_key_refused}

elem-head : (key : String) (ks : List String) → elem key (key ∷ ks) ≡ true
elem-head key ks = ground (arith, eq_iff key key)

written-key :
    (w : Surroundings) (tool : ToolSpec) (key : String) (d : Text)
    (o : EvidenceWriter × Result EvidenceError EvidenceRecord) (g : ToolGateway)
    → elem key (written w tool key d o g).0.seen_keys ≡ true
written-key w tool key d (writer, ok r) g = elem-head key g.seen_keys
written-key w tool key d (writer, err missing_record) g = elem-head key g.seen_keys
written-key w tool key d (writer, err (quota_exceeded n)) g = elem-head key g.seen_keys

with_room-key :
    (w : Surroundings) (tool : ToolSpec) (key : String) (args : Arguments) (d : Text)
    (writer : EvidenceWriter) (o : Result QuotaError (Unit {0})) (g : ToolGateway)
    → elem key (with_room w tool key args d writer o g).0.seen_keys ≡ true
with_room-key w tool key args d writer (err e) g = elem-head key g.seen_keys
with_room-key w tool key args d writer (ok u) g = written-key w tool key d _ g

with_writer-key :
    (w : Surroundings) (tool : ToolSpec) (key : String) (args : Arguments) (d : Text)
    (o : Option EvidenceWriter) (g : ToolGateway)
    → elem key (with_writer w tool key args d o g).0.seen_keys ≡ true
with_writer-key w tool key args d none g = elem-head key g.seen_keys
with_writer-key w tool key args d (some writer) g = with_room-key w tool key args d writer _ g

-- The key of a handler that did not raise is kept.
after_handler-key :
    (w : Surroundings) (tool : ToolSpec) (key : String) (args : Arguments) (a : Result Text Text)
    (g : ToolGateway)
    → ((e : Text) × ((after_handler w tool key args a g).1 ≡ handler_failed e))
      ⊎ (elem key (after_handler w tool key args a g).0.seen_keys ≡ true)
after_handler-key w tool key args (err e) g = inl (_, refl)
after_handler-key w tool key args (ok d) g =
    inr (with_writer-key w tool key args d g.evidence_writer g)

run_handler-key :
    (w : Surroundings) (tool : ToolSpec) (key : String) (args : Arguments) (g : ToolGateway)
    → ((e : Text) × ((run_handler w tool key args g).1 ≡ handler_failed e))
      ⊎ (elem key (run_handler w tool key args g).0.seen_keys ≡ true)
unfolding run_handler
run_handler-key w tool key args g =
    after_handler-key w tool key args (tool.handler args) (called tool args g)

-- A call that has run the handler of a tool, which did not raise, has kept its key.
kept_key :
    (w : Surroundings) (name : String) (args : Arguments) (role : String)
    (ctx : Option ToolExecutionContext) (g : ToolGateway) (tool : ToolSpec) (used : Arguments)
    → lookup name g.tools ≡ some tool
    → check_call tool args role ctx g ≡ ok used
    → (invoke w name args role ctx g).0.runs ≢ g.runs
    → ((e : Text) → (invoke w name args role ctx g).1 ≢ handler_failed e)
    → elem (w.key_of tool.name used) (invoke w name args role ctx g).0.seen_keys ≡ true
kept_key w name args role ctx g tool used found checked ran done =
    elim (invoke-cases w name args role ctx g) [
      | inl e ↦ absurd (ran e)
      | inr (tool', used', g', found', checked', stages, result) ↦
          let same : tool' ≡ tool = cc (found, found') in
          let checked'' = subst (λ t. check_call t args role ctx g ≡ ok used') same checked' in
          let same_args : used' ≡ used = ok_inj (sym checked'' ∙ checked) in
          let key = w.key_of tool'.name used' in
          let same_key : key ≡ w.key_of tool.name used =
            ap (λ (t : ToolSpec). w.key_of t.name used') same
            ∙ ap (λ (a : Arguments). w.key_of tool.name a) same_args in
          elim (run_handler-key w tool' key used' g') [
            | inl (e, failed) ↦ absurd (done e (ap (λ (o : Outcome). o.1) result ∙ failed))
            | inr kept ↦
                subst (λ k. elem k (invoke w name args role ctx g).0.seen_keys ≡ true) same_key
                  (ap (λ (o : Outcome). elem key o.0.seen_keys) result ∙ kept)
          ]
    ]

-- A tool that writes is called; its handler is run and does not raise, whatever becomes of its evidence.
-- The call right after it, by the same name, does not run the tool again when its checked arguments
-- have the same key, whatever the surroundings, the mode, the role and the approvals are then, as long
-- as the name still names that tool.
pub writes_run_once :
    (w w' : Surroundings) (name : String) (args args' : Arguments) (role role' : String)
    (ctx ctx' : Option ToolExecutionContext) (g : ToolGateway) (tool : ToolSpec)
    (used used' : Arguments)
    → tool.read_only ≡ false
    → lookup name g.tools ≡ some tool
    → check_call tool args role ctx g ≡ ok used
    → (invoke w name args role ctx g).0.runs ≢ g.runs
    → ((e : Text) → (invoke w name args role ctx g).1 ≢ handler_failed e)
    → lookup name (invoke w name args role ctx g).0.tools ≡ some tool
    → check_call tool args' role' ctx' (invoke w name args role ctx g).0 ≡ ok used'
    → w'.key_of tool.name used' ≡ w.key_of tool.name used
    → (invoke w' name args' role' ctx' (invoke w name args role ctx g).0).0.runs
      ≡ (invoke w name args role ctx g).0.runs
writes_run_once w w' name args args' role role' ctx ctx' g tool used used' writes found checked ran
      done found' checked' same_key =
    let after = (invoke w name args role ctx g).0 in
    seen_key_refused w' name args' role' ctx' after tool used' found' writes checked' (
      subst (λ k. elem k after.seen_keys ≡ true) (sym same_key)
        (kept_key w name args role ctx g tool used found checked ran done))
