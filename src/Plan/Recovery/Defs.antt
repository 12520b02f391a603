-- ===== src/Plan/Recovery/Defs.antt =====
-- `bounded_plan_for_shape` of app/core/orchestration.py. The construction of a subtask fills its
-- task type and deliverable.
use ai_team_os.Prelude.{
  ℕ, ◌/◌, max, String, Text, codes, lower, Bool, not, ◌&&◌, Option, none, some, List, [], ◌∷◌, ◌++◌,
  map, if◌then◌else◌, str_eq, leb, elem, take, drop,
}
use ai_team_os.Plan.Schemas.{SubtaskSpec, Plan, fill_orchestration_contract}
use ai_team_os.Plan.Shape.{TaskShape, read_only_research, code_analysis, marks}
use ai_team_os.Plan.Envelope.{PlanningEnvelope}

-- A subtask of the researcher.
abbrev pub specialist :
    String
    → String
    → Text
    → List String
    → String
    → List String
    → String
    → List String
    → List String
    → ℕ
    → ℕ
    → SubtaskSpec
specialist id title objective deps capability refs output criteria tools budget calls =
    fill_orchestration_contract (record {
      subtask_id = id;
      title = codes title;
      objective = objective;
      dependencies = deps;
      assigned_role = "researcher";
      capability_required = some capability;
      task_type = none;
      input_refs = refs;
      expected_output = codes output;
      deliverable = none;
      acceptance_criteria = map codes criteria;
      required_tools = tools;
      token_budget = budget;
      tool_call_budget = calls;
    })

unfoldable pub each_budget : PlanningEnvelope → ℕ
each_budget e = max 500 (e.token_budget / max e.min_subtasks 2)

unfoldable pub uses_github : Text → PlanningEnvelope → Bool
unfolding marks
uses_github goal e =
    elem "github_search_repositories" e.available_tools && marks ("github" ∷ []) (lower goal)

unfoldable pub research_tool : Text → PlanningEnvelope → String
unfolding uses_github
research_tool goal e =
    let github = uses_github goal e in
    if elem "fixture_repo_lookup" e.available_tools && not github
    then "fixture_repo_lookup"
    else if github
    then "github_search_repositories"
    else "local_list_directory"

unfoldable pub research_refs : String → List String
research_refs tool =
    if str_eq tool "fixture_repo_lookup"
    then "fixture_repo_lookup:langgraph" ∷ "fixture_repo_lookup:crewai" ∷ []
    else []

unfoldable pub research_discovery : Text → String → ℕ → SubtaskSpec
unfolding fill_orchestration_contract
research_discovery goal tool budget =
    specialist "research_discovery" "收集直接证据" (goal ++ codes "；先收集满足数量要求的直接证据。") [] "research"
      (take 1 (research_refs tool)) "带证据的候选与事实" ("结果非空" ∷ "关键结论有 evidence" ∷ []) (tool ∷ []) budget
      3

unfoldable pub research_comparison : Text → String → ℕ → SubtaskSpec
unfolding fill_orchestration_contract
research_comparison goal tool budget =
    specialist "research_comparison" "独立比较与风险分析" (goal ++ codes "；从优点、缺点、风险和可借鉴设计四方面形成比较。")
      ("research_discovery" ∷ []) "research" (take 1 (drop 1 (research_refs tool))) "结构化比较和建议"
      ("包含优缺点" ∷ "建议与证据一致" ∷ []) (tool ∷ []) budget 3

unfoldable pub research_synthesis : Text → ℕ → SubtaskSpec
unfolding fill_orchestration_contract
research_synthesis goal budget =
    specialist "research_synthesis" "综合证据并形成交付" (goal ++ codes "；综合前述证据，明确决策、局限与落地顺序。")
      ("research_discovery" ∷ "research_comparison" ∷ []) "research"
      ("research_discovery" ∷ "research_comparison" ∷ []) "可追溯的最终研究交付" ("结论可追溯" ∷ "包含局限与实施建议" ∷ [])
      [] budget 1

unfoldable pub research_plan : Text → PlanningEnvelope → List SubtaskSpec
unfolding research_discovery research_comparison research_synthesis
research_plan goal e =
    let tool = research_tool goal e in
    research_discovery goal tool (each_budget e)
    ∷ research_comparison goal tool (each_budget e)
    ∷ (if leb 3 e.min_subtasks then research_synthesis goal (each_budget e) ∷ [] else [])

unfoldable pub analysis_tool : PlanningEnvelope → String
analysis_tool e =
    if elem "local_list_directory" e.available_tools
    then "local_list_directory"
    else "fixture_repo_lookup"

abbrev analysis_ref : String → String → String → List String
analysis_ref tool local fixture =
    if str_eq tool "local_list_directory" then local ∷ [] else fixture ∷ []

unfoldable pub analysis_dependencies : Text → String → ℕ → SubtaskSpec
unfolding fill_orchestration_contract
analysis_dependencies goal tool budget =
    specialist "analysis_dependencies" "依赖与边界分析" (goal ++ codes "；只读分析依赖、入口与边界，不得写文件。") []
      "analysis" (analysis_ref tool "local_list_directory:." "fixture_repo_lookup:langgraph")
      "依赖关系分析" ("分析非空" ∷ "无写操作" ∷ []) (tool ∷ []) budget 3

unfoldable pub analysis_risks : Text → String → ℕ → SubtaskSpec
unfolding fill_orchestration_contract
analysis_risks goal tool budget =
    specialist "analysis_risks" "风险与修改方案" (goal ++ codes "；只读识别潜在风险并给出优先级方案，不得改代码。") [] "analysis"
      (analysis_ref tool "local_list_directory:app" "fixture_repo_lookup:crewai") "风险清单和修改方案"
      ("风险有依据" ∷ "只给方案不写入" ∷ []) (tool ∷ []) budget 3

unfoldable pub analysis_synthesis : Text → ℕ → SubtaskSpec
unfolding fill_orchestration_contract
analysis_synthesis goal budget =
    specialist "analysis_synthesis" "综合分析并输出方案" (goal ++ codes "；综合依赖与风险证据，输出只读实施方案。")
      ("analysis_dependencies" ∷ "analysis_risks" ∷ []) "analysis"
      ("analysis_dependencies" ∷ "analysis_risks" ∷ []) "带证据、优先级和局限的只读方案" ("证据可追溯" ∷ "不产生写操作" ∷ [])
      [] budget 1

unfoldable pub analysis_plan : Text → PlanningEnvelope → List SubtaskSpec
unfolding analysis_dependencies analysis_risks analysis_synthesis
analysis_plan goal e =
    let tool = analysis_tool e in
    analysis_dependencies goal tool (each_budget e)
    ∷ analysis_risks goal tool (each_budget e)
    ∷ (if leb 3 e.min_subtasks then analysis_synthesis goal (each_budget e) ∷ [] else [])

abbrev pub plan_by_shape : Text → PlanningEnvelope → TaskShape → Option Plan
plan_by_shape goal e read_only_research =
    some (record { goal = goal; subtasks = research_plan goal e })
plan_by_shape goal e code_analysis = some (record { goal = goal; subtasks = analysis_plan goal e })
plan_by_shape goal e _ = none

unfoldable pub bounded_plan_for_shape : Text → PlanningEnvelope → Option Plan
unfolding research_plan analysis_plan
bounded_plan_for_shape goal e = plan_by_shape goal e e.task_shape
