-- ===== src/Gateway/Guards.antt =====
-- What a call has passed when the handler of its tool is run.
use ai_team_os.Prelude.{
  ◌≡◌, ◌≢◌, refl, sym, ◌∙◌, subst, ◌⊎◌, inl, inr, true, false, Option, if◌then◌else◌, elem, ok, err,
  ◌>>=◌, bind-eq-ok,
}
use ai_team_os.Permissions.Defs.{allow, block}
use ai_team_os.Limits.Quota.{ToolExecutionContext}
use ai_team_os.Gateway.Repair.{Arguments}
use ai_team_os.Gateway.State.{ToolSpec, ToolGateway, Surroundings, Stage}
use ai_team_os.Gateway.Defs.{reserves_first, reserve_if, check_seen}
use ai_team_os.Gateway.Govern.{decision_of, govern}
use ai_team_os.Gateway.Stages.{
  EndsQuietly, reserve_if-quiet, reserve_if-Kept, check_seen-quiet, check_seen-ok, IsApproved,
  by_decision-quiet, by_decision-ok,
}
use ai_team_os.Gateway.Invoke.{guarded}

-- The stages after the arguments, together.
quiet_bind :
    {A B : Type 0} (g : ToolGateway) (m : Stage A) (f : A → Stage B)
    → EndsQuietly g m
    → ((a : A) → m ≡ ok a → EndsQuietly g (f a))
    → EndsQuietly g (m >>= f)
quiet_bind g (ok a) f h k = k a refl
quiet_bind g (err o) f h k = h

quiet_from :
    {A : Type 0} (g g' : ToolGateway) (m : Stage A)
    → g'.runs ≡ g.runs
    → EndsQuietly g' m
    → EndsQuietly g m
quiet_from g g' (ok a) same h = tt
quiet_from g g' (err o) same h = h ∙ same

decision-task :
    (w : Surroundings) (tool : ToolSpec) (args : Arguments) (g g' : ToolGateway)
    → g'.task_id ≡ g.task_id
    → decision_of w tool args g' ≡ decision_of w tool args g
unfolding decision_of
decision-task w tool args g g' same = rw same refl

IsApproved-before :
    {w : Surroundings} {args : Arguments} {ctx : Option ToolExecutionContext} (g g' : ToolGateway)
    → g'.approval_service ≡ g.approval_service
    → IsApproved w args ctx g'
    → IsApproved w args ctx g
IsApproved-before g g' same a = record {
  id = a.id;
  service = a.service;
  request = a.request;
  named = a.named;
  has_service = sym same ∙ a.has_service;
  found = a.found;
  valid = a.valid;
}

-- What a call has met when the handler of its tool is run.
pub record IsPermitted (w : Surroundings) (tool : ToolSpec) (args : Arguments)
    (ctx : Option ToolExecutionContext) (g : ToolGateway) : Type 0 where
  pub fresh : (elem (w.key_of tool.name args) g.seen_keys ≡ false) ⊎ (tool.read_only ≡ true)
  pub not_blocked : decision_of w tool args g ≢ block
  pub approved : (decision_of w tool args g ≡ allow) ⊎ IsApproved w args ctx g

module _ (w : Surroundings) (tool : ToolSpec) (args : Arguments) (ctx : Option ToolExecutionContext)
    (g : ToolGateway) where
  pub guarded-quiet : EndsQuietly g (guarded w tool args ctx g)
  unfolding guarded govern
  guarded-quiet =
      let key = w.key_of tool.name args in
      quiet_bind g (reserve_if (reserves_first ctx) ctx g) _
        (reserve_if-quiet (reserves_first ctx) ctx g)
        (λ g1 e1.
          let k1 = (reserve_if-Kept (reserves_first ctx) ctx g e1).0 in
          quiet_bind g (check_seen tool key g1) _
            (quiet_from g g1 (check_seen tool key g1) k1.runs (check_seen-quiet tool key g1))
            (λ g2 e2.
              let k2 = (check_seen-ok tool key g1 e2).1 in
              let late = if reserves_first ctx then false else true in
              quiet_bind g (reserve_if late ctx g2) _
                (quiet_from g g2 (reserve_if late ctx g2) (k2.runs ∙ k1.runs)
                  (reserve_if-quiet late ctx g2))
                (λ g3 e3.
                  let k3 = (reserve_if-Kept late ctx g2 e3).0 in
                  quiet_from g g3 _ (k3.runs ∙ k2.runs ∙ k1.runs)
                    (by_decision-quiet w tool key args g3 (decision_of w tool args g3) ctx))))

  pub guarded-ok :
      (g' : ToolGateway)
      → guarded w tool args ctx g ≡ ok g'
      → IsPermitted w tool args ctx g × (g'.runs ≡ g.runs)
  unfolding guarded govern
  guarded-ok g' h =
      let key = w.key_of tool.name args in
      let (g1, e1, h1) = bind-eq-ok (reserve_if (reserves_first ctx) ctx g) _ h in
      let (k1, s1) = reserve_if-Kept (reserves_first ctx) ctx g e1 in
      let (g2, e2, h2) = bind-eq-ok (check_seen tool key g1) _ h1 in
      let (fresh, k2) = check_seen-ok tool key g1 e2 in
      let (g3, e3, h3) =
        bind-eq-ok (reserve_if (if reserves_first ctx then false else true) ctx g2) _ h2 in
      let (k3, s3) = reserve_if-Kept (if reserves_first ctx then false else true) ctx g2 e3 in
      let (approved, unblocked, same) =
        by_decision-ok w tool key args g3 (decision_of w tool args g3) ctx h3 in
      let task = decision-task w tool args g g3 (k3.task ∙ k2.task ∙ k1.task) in
      (
        record {
          fresh = elim fresh [
            | inl e ↦ inl (subst (λ ks. elem key ks ≡ false) s1 e)
            | inr e ↦ inr e
          ];
          not_blocked = λ e. unblocked (task ∙ e);
          approved = elim approved [
            | inl e ↦ inl (sym task ∙ e)
            | inr a ↦ inr (IsApproved-before g g3 (k3.service ∙ k2.service ∙ k1.service) a)
          ];
        },
        same ∙ k3.runs ∙ k2.runs ∙ k1.runs,
      )
