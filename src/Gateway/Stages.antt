-- ===== src/Gateway/Stages.antt =====
-- The stages of a call: what they let through, and that none of them runs a handler.
use ai_team_os.Prelude.{
  String, ◌≡◌, ◌≢◌, refl, sym, ap, subst, ◌⊎◌, inl, inr, Bool, true, false, Option, none, some,
  elem, lookup, Result, ok, err, Bool-cases,
}
use ai_team_os.Permissions.Defs.{ActionDecision, allow, ask, block}
use ai_team_os.Approval.Defs.{ApprovalError, ApprovalService, ApprovalRequest, verify_execution}
use ai_team_os.Limits.Quota.{ToolExecutionContext, QuotaError, check_and_reserve, check_evidence}
use ai_team_os.Gateway.Repair.{Arguments}
use ai_team_os.Gateway.State.{ToolSpec, ToolGateway, Surroundings, Outcome, Stage, CachedResult}
use ai_team_os.Gateway.Defs.{
  use_of, reserve, reserve_with, reserve_if, check_seen, seen_call, hit_for,
}
use ai_team_os.Gateway.Govern.{approval_named, by_decision, by_approval, with_request, answered}

pub stage_cases :
    {A : Type 0} (m : Result Outcome A) → ((a : A) × (m ≡ ok a)) ⊎ ((o : Outcome) × (m ≡ err o))
stage_cases (ok a) = inl (a, refl)
stage_cases (err o) = inr (o, refl)

pub ok_inj : {A : Type 0} {a b : A} → ◌≡◌ {A = Stage A} (ok a) (ok b) → a ≡ b
ok_inj h = cc h

-- No handler is run, and the task and the approvals that the service knows stay.
pub record Kept (g g' : ToolGateway) : Type 0 where
  pub runs : g'.runs ≡ g.runs
  pub task : g'.task_id ≡ g.task_id
  pub service : g'.approval_service ≡ g.approval_service

-- A stage that ends the call runs no handler.
abbrev pub EndsQuietly : {A : Type 0} → ToolGateway → Stage A → Type 0
EndsQuietly g (ok a) = Unit
EndsQuietly g (err o) = o.0.runs ≡ g.runs

reserve_with-quiet :
    (a b : Result QuotaError (Unit {0})) (g : ToolGateway) → EndsQuietly g (reserve_with a b g)
reserve_with-quiet (err e) b g = refl
reserve_with-quiet (ok u) (err e) g = refl
reserve_with-quiet (ok u) (ok v) g = tt

reserve_with-ok :
    (a b : Result QuotaError (Unit {0})) (g : ToolGateway) {g' : ToolGateway}
    → reserve_with a b g ≡ ok g'
    → g ≡ g'
reserve_with-ok (err e) b g h = absurd (cc h)
reserve_with-ok (ok u) (err e) g h = absurd (cc h)
reserve_with-ok (ok u) (ok v) g h = cc h

pub reserve_if-quiet :
    (b : Bool) (ctx : Option ToolExecutionContext) (g : ToolGateway)
    → EndsQuietly g (reserve_if b ctx g)
unfolding reserve_if reserve
reserve_if-quiet false ctx g = tt
reserve_if-quiet true ctx g =
    let q = check_and_reserve ctx g.quota in
    reserve_with-quiet q.1 (check_evidence (use_of g.evidence_writer) q.0)
      (record g { quota = q.0 })

pub reserve_if-Kept :
    (b : Bool) (ctx : Option ToolExecutionContext) (g : ToolGateway) {g' : ToolGateway}
    → reserve_if b ctx g ≡ ok g'
    → Kept g g' × (g'.seen_keys ≡ g.seen_keys)
unfolding reserve_if reserve
reserve_if-Kept false ctx g h =
    let e : g ≡ _ = cc h in
    subst (λ x. Kept g x × (x.seen_keys ≡ g.seen_keys)) e
      (record { runs = refl; task = refl; service = refl }, refl)
reserve_if-Kept true ctx g h =
    let q = check_and_reserve ctx g.quota in
    subst (λ x. Kept g x × (x.seen_keys ≡ g.seen_keys))
      (reserve_with-ok q.1 (check_evidence (use_of g.evidence_writer) q.0)
        (record g { quota = q.0 }) h)
      (record { runs = refl; task = refl; service = refl }, refl)

module _ (tool : ToolSpec) (key : String) (g : ToolGateway) where
  seen_call-quiet : (o : Option CachedResult) → EndsQuietly g (seen_call tool key o g)
  seen_call-quiet (some hit) = refl
  seen_call-quiet none = elim (Bool-cases tool.read_only) [ inl e ↦ rw e tt | inr e ↦ rw e refl ]

  seen_call-ok :
      (o : Option CachedResult) {g' : ToolGateway}
      → seen_call tool key o g ≡ ok g'
      → (tool.read_only ≡ true) × Kept g g'
  seen_call-ok (some hit) h = absurd (cc h)
  seen_call-ok none h = elim (Bool-cases tool.read_only) [
    | inl e ↦ (
      e,
      subst (Kept g) (ok_inj (rw e at h)) (record { runs = refl; task = refl; service = refl }),
    )
    | inr e ↦ absurd (cc (rw e at h))
  ]

  pub check_seen-quiet : EndsQuietly g (check_seen tool key g)
  unfolding check_seen
  check_seen-quiet = elim (Bool-cases (elem key g.seen_keys)) [
    | inl e ↦ rw e (seen_call-quiet (hit_for key g))
    | inr e ↦ rw e tt
  ]

  -- A key that was seen goes on for a tool that only reads.
  pub check_seen-ok :
      {g' : ToolGateway}
      → check_seen tool key g ≡ ok g'
      → ((elem key g.seen_keys ≡ false) ⊎ (tool.read_only ≡ true)) × Kept g g'
  unfolding check_seen
  check_seen-ok h = elim (Bool-cases (elem key g.seen_keys)) [
    | inl e ↦ let (reads, kept) = seen_call-ok (hit_for key g) (rw e at h) in (inr reads, kept)
    | inr e ↦ (
      inl e,
      subst (Kept g) (ok_inj (rw e at h)) (record { runs = refl; task = refl; service = refl }),
    )
  ]

-- The approval that the context names is there, and was verified for these parameters.
pub record IsApproved (w : Surroundings) (args : Arguments) (ctx : Option ToolExecutionContext)
    (g : ToolGateway) : Type 0 where
  pub id : String
  pub service : ApprovalService
  pub request : ApprovalRequest
  pub named : approval_named ctx ≡ some id
  pub has_service : g.approval_service ≡ some service
  pub found : lookup id service.requests ≡ some request
  pub valid :
      (verify_execution w.now
        (w.parameter_hash_of args)
        ""
        (some request.operation_hash)
        request
        service).1
      ≡ ok tt

answered-quiet :
    (tool : ToolSpec) (key : String) (a : Result ApprovalError (Unit {0})) (g : ToolGateway)
    → EndsQuietly g (answered tool key a g)
answered-quiet tool key (ok u) g = tt
answered-quiet tool key (err e) g = refl

answered-ok :
    (tool : ToolSpec) (key : String) (a : Result ApprovalError (Unit {0})) (g : ToolGateway)
    {g' : ToolGateway}
    → answered tool key a g ≡ ok g'
    → (a ≡ ok tt) × (g ≡ g')
answered-ok tool key (ok tt) g h = (refl, ok_inj h)
answered-ok tool key (err e) g h = absurd (cc h)

module _ (w : Surroundings) (tool : ToolSpec) (key : String) (args : Arguments)
    (g : ToolGateway) where
  with_request-quiet :
      (o : Option ApprovalRequest) (s : ApprovalService)
      → EndsQuietly g (with_request w tool key args o s g)
  with_request-quiet none s = refl
  with_request-quiet (some r) s = answered-quiet tool key _ (record g { approval_service = _ })

  by_approval-quiet :
      (n : Option String) (s : Option ApprovalService)
      → EndsQuietly g (by_approval w tool key args n s g)
  by_approval-quiet none none = refl
  by_approval-quiet none (some s) = refl
  by_approval-quiet (some id) none = refl
  by_approval-quiet (some id) (some s) = with_request-quiet (lookup id s.requests) s

  pub by_decision-quiet :
      (d : ActionDecision) (ctx : Option ToolExecutionContext)
      → EndsQuietly g (by_decision d w tool key args ctx g)
  by_decision-quiet allow ctx = tt
  by_decision-quiet block ctx = refl
  by_decision-quiet ask ctx = by_approval-quiet (approval_named ctx) g.approval_service

  with_request-ok :
      (o : Option ApprovalRequest) (s : ApprovalService) {g' : ToolGateway}
      → with_request w tool key args o s g ≡ ok g'
      → (r : ApprovalRequest) × (o ≡ some r)
        × ((verify_execution w.now (w.parameter_hash_of args) "" (some r.operation_hash) r s).1
            ≡ ok tt)
        × (g'.runs ≡ g.runs)
  with_request-ok none s h = absurd (cc h)
  with_request-ok (some r) s h =
      let (valid, same) = answered-ok tool key _ _ h in
      (r, refl, valid, ap (λ (x : ToolGateway). x.runs) (sym same))

  by_approval-ok :
      (ctx : Option ToolExecutionContext) (n : Option String) (s : Option ApprovalService)
      {g' : ToolGateway}
      → approval_named ctx ≡ n
      → g.approval_service ≡ s
      → by_approval w tool key args n s g ≡ ok g'
      → IsApproved w args ctx g × (g'.runs ≡ g.runs)
  by_approval-ok ctx none none n s h = absurd (cc h)
  by_approval-ok ctx none (some s') n s h = absurd (cc h)
  by_approval-ok ctx (some id) none n s h = absurd (cc h)
  by_approval-ok ctx (some id) (some s') n s h =
      let (r, found, valid, same) = with_request-ok (lookup id s'.requests) s' h in
      (
        record {
          id = id;
          service = s';
          request = r;
          named = n;
          has_service = s;
          found = found;
          valid = valid;
        },
        same,
      )

  pub by_decision-ok :
      (d : ActionDecision) (ctx : Option ToolExecutionContext) {g' : ToolGateway}
      → by_decision d w tool key args ctx g ≡ ok g'
      → ((d ≡ allow) ⊎ IsApproved w args ctx g) × (d ≢ block) × (g'.runs ≡ g.runs)
  by_decision-ok allow ctx h =
      (inl refl, (λ e. cc e), ap (λ (x : ToolGateway). x.runs) (sym (ok_inj h)))
  by_decision-ok block ctx h = absurd (cc h)
  by_decision-ok ask ctx h =
      let (a, same) = by_approval-ok ctx (approval_named ctx) g.approval_service refl refl h in
      (inr a, (λ e. cc e), same)
