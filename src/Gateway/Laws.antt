-- ===== src/Gateway/Laws.antt =====
-- When the handler of a tool is run.
use ai_team_os.Prelude.{
  String, Text, ◌≡◌, refl, sym, ap, ◌∙◌, subst, ◌⊎◌, inl, inr, Bool, true, false, not, ◌&&◌, is_nil,
  Option, none, some, [], ◌∷◌, ◌++◌, elem, lookup, Result, ok, err, ◌>>=◌, ◌>>◌, Option-cases,
}
use ai_team_os.Evidence.Defs.{
  EvidenceWriter, EvidenceRecord, EvidenceError, missing_record, quota_exceeded,
}
use ai_team_os.Limits.Quota.{ToolExecutionContext, QuotaError}
use ai_team_os.Gateway.Repair.{Arguments, prepare}
use ai_team_os.Gateway.State.{
  ToolSpec, ToolGateway, Surroundings, ToolResult, role_denied, argument_missing, schema_rejected,
  url_rejected, path_rejected, unknown_tool, deny, Outcome, Stage,
}
use ai_team_os.Gateway.Defs.{found_tool, effective_role, accepted_by, find_tool, check_call}
use ai_team_os.Gateway.Stages.{stage_cases, ok_inj, EndsQuietly}
use ai_team_os.Gateway.Invoke.{
  called, guarded, run_tool, run_handler, after_handler, with_room, with_writer, written, returned,
  invoke,
}
use ai_team_os.Gateway.Guards.{IsPermitted, guarded-quiet, guarded-ok}

-- A handler that is run is recorded once.
written-runs :
    (w : Surroundings) (tool : ToolSpec) (key : String) (d : Text)
    (o : EvidenceWriter × Result EvidenceError EvidenceRecord) (g : ToolGateway)
    → (written w tool key d o g).0.runs ≡ g.runs
written-runs w tool key d (writer, ok r) g = refl
written-runs w tool key d (writer, err missing_record) g = refl
written-runs w tool key d (writer, err (quota_exceeded n)) g = refl

with_room-runs :
    (w : Surroundings) (tool : ToolSpec) (key : String) (args : Arguments) (d : Text)
    (writer : EvidenceWriter) (o : Result QuotaError (Unit {0})) (g : ToolGateway)
    → (with_room w tool key args d writer o g).0.runs ≡ g.runs
with_room-runs w tool key args d writer (err e) g = refl
with_room-runs w tool key args d writer (ok u) g = written-runs w tool key d _ g

with_writer-runs :
    (w : Surroundings) (tool : ToolSpec) (key : String) (args : Arguments) (d : Text)
    (o : Option EvidenceWriter) (g : ToolGateway)
    → (with_writer w tool key args d o g).0.runs ≡ g.runs
with_writer-runs w tool key args d none g = refl
with_writer-runs w tool key args d (some writer) g = with_room-runs w tool key args d writer _ g

after_handler-runs :
    (w : Surroundings) (tool : ToolSpec) (key : String) (args : Arguments) (a : Result Text Text)
    (g : ToolGateway)
    → (after_handler w tool key args a g).0.runs ≡ g.runs
after_handler-runs w tool key args (err e) g = refl
after_handler-runs w tool key args (ok d) g = with_writer-runs w tool key args d g.evidence_writer g

deny_then :
    {A : Type 0} (b : Bool) (g : ToolGateway) (r : ToolResult) (k : Stage A)
    → EndsQuietly g k
    → EndsQuietly g (deny b g r >> k)
deny_then true g r k h = refl
deny_then false g r k h = h

-- Five tests, and then an answer.
five_tests :
    {A : Type 0} (a b c d e : Bool) (g : ToolGateway) (r1 r2 r3 r4 r5 : ToolResult) (x : A)
    → EndsQuietly g
        (deny a g r1 >> (deny b g r2 >> (deny c g r3 >> (deny d g r4 >> (deny e g r5 >> ok x)))))
five_tests a b c d e g r1 r2 r3 r4 r5 x =
    deny_then a g r1 _
      (deny_then b g r2 _ (deny_then c g r3 _ (deny_then d g r4 _ (deny_then e g r5 (ok x) tt))))

check_call-quiet :
    (tool : ToolSpec) (args : Arguments) (role : String) (ctx : Option ToolExecutionContext)
    (g : ToolGateway)
    → EndsQuietly g (check_call tool args role ctx g)
unfolding check_call
check_call-quiet tool args role ctx g =
    let p = prepare args (tool.required ++ tool.optional) tool.required in
    five_tests (not (is_nil tool.roles) && not (elem (effective_role role ctx) tool.roles))
      (not (is_nil p.missing)) (not (tool.accepts p.args))
      (not (accepted_by tool.accepts_url (lookup "url" p.args)))
      (not (
        accepted_by tool.accepts_path (lookup "path" p.args)
        && accepted_by tool.accepts_path (lookup "dir" p.args)))
      g role_denied (argument_missing p.missing) schema_rejected url_rejected path_rejected p.args

run_handler-runs :
    (w : Surroundings) (tool : ToolSpec) (key : String) (args : Arguments) (g : ToolGateway)
    → (run_handler w tool key args g).0.runs ≡ g.runs ++ (tool.name, args) ∷ []
unfolding run_handler
run_handler-runs w tool key args g =
    after_handler-runs w tool key args (tool.handler args) (called tool args g)

-- What follows the checks of the arguments, and what follows the guards.
abbrev last_stage : Surroundings → ToolSpec → Arguments → ToolGateway → Stage Outcome
last_stage w tool used g' = ok (run_handler w tool (w.key_of tool.name used) used g')

abbrev after_check :
    Surroundings
    → String
    → Option ToolExecutionContext
    → ToolGateway
    → ToolSpec
    → Arguments
    → Stage Outcome
after_check w role ctx g tool used = guarded w tool used ctx g >>= last_stage w tool used

module _ (w : Surroundings) (name : String) (args : Arguments) (role : String)
    (ctx : Option ToolExecutionContext) (g : ToolGateway) where
  unknown : lookup name g.tools ≡ none → invoke w name args role ctx g ≡ (g, unknown_tool)
  unfolding invoke find_tool
  unknown n = ap (λ o. returned (found_tool o g >>= λ tool. run_tool w args role ctx g tool)) n

  known :
      (tool : ToolSpec)
      → lookup name g.tools ≡ some tool
      → invoke w name args role ctx g
        ≡ returned (check_call tool args role ctx g >>= after_check w role ctx g tool)
  unfolding invoke find_tool
  known tool e = ap (λ o. returned (found_tool o g >>= λ tool. run_tool w args role ctx g tool)) e

-- A call ends in a stage, or its handler is run after the stages.
pub invoke-cases :
    (w : Surroundings) (name : String) (args : Arguments) (role : String)
    (ctx : Option ToolExecutionContext) (g : ToolGateway)
    → ((invoke w name args role ctx g).0.runs ≡ g.runs)
      ⊎ ((tool : ToolSpec) × (used : Arguments) × (g' : ToolGateway) × (lookup name g.tools
            ≡ some tool)
          × (check_call tool args role ctx g ≡ ok used)
          × (guarded w tool used ctx g ≡ ok g')
          × (invoke w name args role ctx g ≡ run_handler w tool (w.key_of tool.name used) used g'))
invoke-cases w name args role ctx g = elim (Option-cases (lookup name g.tools)) [
  | inl n ↦ inl (ap (λ (o : Outcome). o.0.runs) (unknown w name args role ctx g n))
  | inr (tool, found) ↦
      let first = known w name args role ctx g tool found in
      elim (stage_cases (check_call tool args role ctx g)) [
        | inr (o, e) ↦ inl (
            ap (λ (o : Outcome). o.0.runs)
              (first ∙ ap (λ m. returned (m >>= after_check w role ctx g tool)) e)
            ∙ subst (EndsQuietly g) e (check_call-quiet tool args role ctx g))
        | inl (used, checked) ↦
            let second = first ∙ ap (λ m. returned (m >>= after_check w role ctx g tool)) checked in
            elim (stage_cases (guarded w tool used ctx g)) [
              | inr (o, e) ↦ inl (
                  ap (λ (o : Outcome). o.0.runs)
                    (second ∙ ap (λ m. returned (m >>= last_stage w tool used)) e)
                  ∙ subst (EndsQuietly g) e (guarded-quiet w tool used ctx g))
              | inl (g', e) ↦ inr (
                tool,
                used,
                g',
                found,
                checked,
                e,
                second ∙ ap (λ m. returned (m >>= last_stage w tool used)) e,
              )
            ]
      ]
]

-- A call runs no handler, or it runs that of the named tool once, with arguments that its checks have
-- accepted; then the key of the call is new or the tool only reads, the policy does not block the
-- action at the mode in force, and it allows it outright or the approval that the context names is
-- there and was verified for these arguments.
pub handler_guarded :
    (w : Surroundings) (name : String) (args : Arguments) (role : String)
    (ctx : Option ToolExecutionContext) (g : ToolGateway)
    → ((invoke w name args role ctx g).0.runs ≡ g.runs)
      ⊎ ((tool : ToolSpec) × (used : Arguments) × (lookup name g.tools ≡ some tool)
          × (check_call tool args role ctx g ≡ ok used)
          × IsPermitted w tool used ctx g
          × ((invoke w name args role ctx g).0.runs ≡ g.runs ++ (tool.name, used) ∷ []))
handler_guarded w name args role ctx g = elim (invoke-cases w name args role ctx g) [
  | inl e ↦ inl e
  | inr (tool, used, g', found, checked, e, ran) ↦
      let (permitted, same) = guarded-ok w tool used ctx g g' e in
      inr (
        tool,
        used,
        found,
        checked,
        permitted,
        ap (λ (o : Outcome). o.0.runs) ran
            ∙ run_handler-runs w tool (w.key_of tool.name used) used g'
            ∙ ap (λ l. l ++ (tool.name, used) ∷ []) same,
      )
]

-- A tool that writes is not run again for a key that was seen, whatever the mode and the approvals.
pub seen_key_refused :
    (w : Surroundings) (name : String) (args : Arguments) (role : String)
    (ctx : Option ToolExecutionContext) (g : ToolGateway) (tool : ToolSpec) (used : Arguments)
    → lookup name g.tools ≡ some tool
    → tool.read_only ≡ false
    → check_call tool args role ctx g ≡ ok used
    → elem (w.key_of tool.name used) g.seen_keys ≡ true
    → (invoke w name args role ctx g).0.runs ≡ g.runs
seen_key_refused w name args role ctx g tool used found writes checked seen =
    elim (handler_guarded w name args role ctx g) [
      | inl e ↦ e
      | inr (tool', used', found', checked', permitted, ran) ↦
          let same : tool' ≡ tool = cc (found, found') in
          let checked'' = subst (λ t. check_call t args role ctx g ≡ ok used') same checked' in
          let same_args : used' ≡ used = ok_inj (sym checked'' ∙ checked) in
          let p : IsPermitted w tool used ctx g =
            subst (λ a. IsPermitted w tool a ctx g) same_args
              (subst (λ t. IsPermitted w t used' ctx g) same permitted) in
          elim p.fresh [ inl e ↦ absurd (cc (e, seen)) | inr e ↦ absurd (cc (e, writes)) ]
    ]
