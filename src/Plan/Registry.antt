-- ===== src/Plan/Registry.antt =====
-- app/core/registry.py: the agents by id, and the five that are registered.
use ai_team_os.Prelude.{
  ℕ, String, Bool, true, ◌&&◌, Option, none, some, List, [], ◌∷◌, str_eq, Dict, lookup, insert,
  filter, map,
}
use ai_team_os.Plan.Schemas.{AgentSpec}

abbrev pub AgentRegistry : Type 0
AgentRegistry = Dict AgentSpec

abbrev pub register : AgentSpec → AgentRegistry → AgentRegistry
register spec r = insert spec.agent_id spec r

-- `none` is the `KeyError`.
unfoldable pub get : String → AgentRegistry → Option AgentSpec
unfolding lookup
get agent_id r = lookup agent_id r

unfoldable pub all_agents : AgentRegistry → List AgentSpec
all_agents r = map (λ e. e.1) r

unfoldable pub by_role : String → AgentRegistry → List AgentSpec
unfolding all_agents
by_role role_type r = filter (λ a. str_eq a.role_type role_type && a.enabled) (all_agents r)

unfoldable pub is_enabled : String → AgentRegistry → Option Bool
unfolding get
is_enabled agent_id r = elim (get agent_id r) [ none ↦ none | some a ↦ some a.enabled ]

abbrev pub researcher_read_only_tools : List String
researcher_read_only_tools =
    "github_repo_info" ∷ "github_read_file" ∷ "github_list_directory" ∷ "github_list_commits"
    ∷ "github_list_issues" ∷ "github_get_issue" ∷ "github_list_pull_requests"
    ∷ "github_get_pull_request" ∷ "github_search_repositories" ∷ "github_search_code"
    ∷ "fixture_repo_lookup" ∷ "fixture_source_lookup" ∷ "local_read_text" ∷ "local_list_directory"
    ∷ "local_file_metadata" ∷ "local_read_json" ∷ "local_read_csv" ∷ "local_read_pdf" ∷ "web_fetch"
    ∷ []

abbrev pub executor_tools : List String
executor_tools =
    "sandbox_create_directory" ∷ "sandbox_write_file" ∷ "sandbox_apply_patch" ∷ "sandbox_copy_file"
    ∷ "sandbox_move_file" ∷ "sandbox_delete_path" ∷ "sandbox_restore_backup" ∷ "fixture_repo_lookup"
    ∷ "fixture_source_lookup" ∷ []

abbrev agent : String → String → String → String → List String → ℕ → ℕ → AgentSpec
agent id display_name goal instructions tools token_limit max_tool_calls = record {
  agent_id = id;
  role_type = id;
  display_name = display_name;
  goal = goal;
  instructions = instructions;
  allowed_tools = tools;
  model_scenario = "fake";
  token_limit = token_limit;
  max_tool_calls = max_tool_calls;
  enabled = true;
}

unfoldable pub default_registry : AgentRegistry
unfolding insert
default_registry =
    let r =
      register
        (agent "supervisor" "Supervisor" "调度任务并保证验收标准达成"
          "确定性调度 + 有限模型决策；不直接调用业务工具；Reviewer 未通过不得完成任务。" [] 32000 0)
        [] in
    let r =
      register
        (agent "planner" "Planner" "把澄清后的目标拆解为结构化计划" "输出 Plan Schema；不调用外部工具；预算分配总和不得超过任务总预算。" []
          16000 0)
        r in
    let r =
      register
        (agent "researcher" "Researcher" "采集事实与证据"
          "只允许只读 Fixture 工具；输出 ResearchReport；无 evidence 的 Claim 必须标记未验证；不能直接写 final_result。"
          researcher_read_only_tools 64000 10)
        r in
    let r =
      register
        (agent "executor" "Executor" "生成变更提案并经审批后实施（007 十二：正式启用）"
          "只允许：创建 PatchProposal、读取 worktree、调用沙箱写工具、调用受限测试命令、生成 Artifact；禁止自行批准、访问源项目、调用网络、未登记命令、remote/push/发送/设备。"
          executor_tools 64000 20)
        r in
    register (agent "reviewer" "Reviewer" "独立审查产物" "确定性检查先行；LLM 评审不得把确定性失败改为通过。" [] 16000 0) r
