-- ===== src/Limits/Quota.antt =====
-- `ToolQuota` of app/gateway/tool_policy.py. A `ValueError` is an error; the lock makes each
-- operation one step.
use ai_team_os.Prelude.{
  ℕ, suc, ◌+◌, ◌≤◌, min, String, ◌≡◌, refl, ap, ◌∙◌, Bool, Option, none, some, List, [], ◌∷◌,
  if◌then◌else◌, str_eq, eq_iff, leb, ltb, Dict, lookup, insert, lookup-insert, arith, Result, ok,
  err, is_ok,
}

-- The fields of `ToolExecutionContext` that the quota reads.
pub record ToolExecutionContext : Type 0 where
  pub task_id : String
  pub subtask_id : String
  pub role : String
  pub tool_call_budget : ℕ
  pub max_evidence : ℕ
  pub max_read_bytes : ℕ
  pub approval_id : Option String
  pub replay : Bool

pub record ToolPolicy : Type 0 where
  pub read_only_only : Bool
  pub max_calls_per_subtask : ℕ
  pub max_evidence_per_task : ℕ
  pub max_read_bytes_per_task : ℕ

pub data QuotaError : Type 0 where
  calls_exceeded : String → QuotaError
  evidence_exceeded read_bytes_exceeded : ℕ → QuotaError

pub record ToolQuota : Type 0 where
  pub policy : ToolPolicy
  pub subtask_calls : Dict ℕ

abbrev pub new_quota : ToolPolicy → ToolQuota
new_quota policy = record { policy = policy; subtask_calls = [] }

unfoldable pub calls_for : String → ToolQuota → ℕ
unfolding lookup
calls_for id q = elim (lookup id q.subtask_calls) [ none ↦ 0 | some n ↦ n ]

abbrev pub limit_of : ToolExecutionContext → ToolQuota → ℕ
limit_of ctx q = min ctx.tool_call_budget q.policy.max_calls_per_subtask

-- The quota after the call, and whether it raises.
unfoldable pub check_and_reserve :
    Option ToolExecutionContext → ToolQuota → ToolQuota × Result QuotaError (Unit {0})
unfolding calls_for insert
check_and_reserve none q = (q, ok tt)
check_and_reserve (some ctx) q =
    let used = calls_for ctx.subtask_id q in
    if leb (limit_of ctx q) used
    then (q, err (calls_exceeded ctx.subtask_id))
    else (record q { subtask_calls = insert ctx.subtask_id (used + 1) q.subtask_calls }, ok tt)

-- What the two other checks read of an `EvidenceWriter`.
pub record WriterUse : Type 0 where
  pub count : ℕ
  pub total_bytes : ℕ

unfoldable pub check_evidence : Option WriterUse → ToolQuota → Result QuotaError (Unit {0})
check_evidence none q = ok tt
check_evidence (some w) q =
    if leb q.policy.max_evidence_per_task w.count
    then err (evidence_exceeded q.policy.max_evidence_per_task)
    else ok tt

unfoldable pub check_read_bytes : Option WriterUse → ℕ → ToolQuota → Result QuotaError (Unit {0})
check_read_bytes none additional q = ok tt
check_read_bytes (some w) additional q =
    if ltb q.policy.max_read_bytes_per_task (w.total_bytes + additional)
    then err (read_bytes_exceeded (w.total_bytes + additional))
    else ok tt

-- A run of calls, and how many of those of a subtask were let through.
unfoldable pub reserve_each : List ToolExecutionContext → ToolQuota → ToolQuota
reserve_each [] q = q
reserve_each (c ∷ cs) q = reserve_each cs (check_and_reserve (some c) q).0

unfoldable pub let_through : String → List ToolExecutionContext → ToolQuota → ℕ
let_through id [] q = 0
let_through id (c ∷ cs) q =
    let rest = let_through id cs (check_and_reserve (some c) q).0 in
    if str_eq c.subtask_id id
    then (if is_ok (check_and_reserve (some c) q).1 then suc rest else rest)
    else rest

reserve_step :
    (c : ToolExecutionContext) (q : ToolQuota) (id : String)
    → ((check_and_reserve (some c) q).0.policy ≡ q.policy)
      × (calls_for id (check_and_reserve (some c) q).0
          ≡ calls_for id q
            + (if str_eq c.subtask_id id
                then (if is_ok (check_and_reserve (some c) q).1 then 1 else 0)
                else 0))
      × (calls_for id q ≤ q.policy.max_calls_per_subtask
          → calls_for id (check_and_reserve (some c) q).0 ≤ q.policy.max_calls_per_subtask)
unfolding check_and_reserve calls_for
reserve_step c q id =
    let read = lookup-insert c.subtask_id id (calls_for c.subtask_id q + 1) q.subtask_calls in
    (
      ground arith,
      ground (arith, read, eq_iff c.subtask_id id),
      λ h. ground (arith, read, eq_iff c.subtask_id id),
    )

-- In any run of calls, of any subtasks and in any order, the calls counted for a subtask are those
-- counted before and those let through since, no subtask passes the policy's bound when none had
-- before, and the policy stays.
pub reserve_each_lem :
    (cs : List ToolExecutionContext) (q : ToolQuota) (id : String)
    → (calls_for id (reserve_each cs q) ≡ calls_for id q + let_through id cs q)
      × (calls_for id q ≤ q.policy.max_calls_per_subtask
          → calls_for id (reserve_each cs q) ≤ q.policy.max_calls_per_subtask)
      × ((reserve_each cs q).policy ≡ q.policy)
unfolding reserve_each let_through
reserve_each_lem [] q id = (omega arith, λ h. h, refl)
reserve_each_lem (c ∷ cs) q id =
    let step = reserve_step c q id in
    let rest = reserve_each_lem cs (check_and_reserve (some c) q).0 id in
    let same = ap (λ (p : ToolPolicy). p.max_calls_per_subtask) step.0 in
    (
      ground (arith, step.1, rest.0),
      λ h. omega (arith, rest.1 (omega (arith, same, step.2 h)), same),
      rest.2 ∙ step.0,
    )
