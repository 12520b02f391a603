-- ===== src/Plan/Shape.antt =====
-- The shapes of a task, the capabilities of each, and the role that serves a capability, of
-- app/core/orchestration.py.
use ai_team_os.Prelude.{
  String, Text, codes, lower, starts_with, contains_any, Bool, not, ◌&&◌, ◌||◌, Option, none, some,
  List, [], ◌∷◌, if◌then◌else◌, str_eq,
}

pub data TaskShape : Type 0 where
  read_only_research code_analysis code_change windows_action multi_step_delivery direct_response :
      TaskShape

pub data Capability : Type 0 where
  research code_change verification windows_action analysis : Capability

abbrev pub capability_value : Capability → String
capability_value Capability.research = "research"
capability_value Capability.code_change = "code_change"
capability_value Capability.verification = "verification"
capability_value Capability.windows_action = "windows_action"
capability_value Capability.analysis = "analysis"

-- `Capability(value)`; `none` is the `ValueError`.
unfoldable pub parse_capability : String → Option Capability
parse_capability value =
    if str_eq value "research"
    then some Capability.research
    else if str_eq value "code_change"
    then some Capability.code_change
    else if str_eq value "verification"
    then some Capability.verification
    else if str_eq value "windows_action"
    then some Capability.windows_action
    else if str_eq value "analysis"
    then some Capability.analysis
    else none

abbrev pub no_write_markers : List String
no_write_markers = "不要改代码" ∷ "别改代码" ∷ "不修改代码" ∷ "只给修改方案" ∷ "仅输出方案" ∷ "只分析" ∷ "no write" ∷ []

abbrev pub code_markers : List String
code_markers = "代码" ∷ "模块" ∷ "依赖" ∷ "测试" ∷ "bug" ∷ "patch" ∷ "pytest" ∷ "修复" ∷ []

abbrev pub change_markers : List String
change_markers = "修复" ∷ "修改" ∷ "实施" ∷ "直接修" ∷ "apply" ∷ "patch" ∷ "fix" ∷ []

abbrev pub windows_markers : List String
windows_markers = "窗口" ∷ "记事本" ∷ "桌面" ∷ "点击" ∷ "输入" ∷ "windows" ∷ []

abbrev pub research_markers : List String
research_markers = "github" ∷ "研究" ∷ "调研" ∷ "搜索" ∷ "找 " ∷ "找几个" ∷ "对比" ∷ []

abbrev pub delivery_markers : List String
delivery_markers = "然后" ∷ "最后" ∷ "方案" ∷ "交付" ∷ "多步" ∷ []

unfoldable pub marks : List String → Text → Bool
unfolding contains_any
marks ms text = contains_any ms text

unfoldable pub classify_task_shape : Text → TaskShape
classify_task_shape goal =
    let text = lower goal in
    if starts_with text (codes "sandbox_")
    then code_change
    else if starts_with text (codes "scenario:")
    then multi_step_delivery
    else if marks ("github_compare" ∷ []) text
    then read_only_research
    else if marks windows_markers text
    then windows_action
    else if marks ("github" ∷ []) text && marks research_markers text
    then read_only_research
    else if marks code_markers text
    then (if marks no_write_markers text || not (marks change_markers text)
        then code_analysis
        else code_change)
    else if marks research_markers text
    then read_only_research
    else if marks delivery_markers text
    then multi_step_delivery
    else direct_response

unfoldable pub capabilities_for_shape : TaskShape → List Capability
capabilities_for_shape direct_response = []
capabilities_for_shape read_only_research = Capability.research ∷ []
capabilities_for_shape code_analysis = Capability.analysis ∷ Capability.research ∷ []
capabilities_for_shape code_change =
    Capability.research ∷ Capability.code_change ∷ Capability.verification ∷ []
capabilities_for_shape windows_action = Capability.windows_action ∷ Capability.verification ∷ []
capabilities_for_shape multi_step_delivery =
    Capability.research ∷ Capability.code_change ∷ Capability.verification ∷ []

-- `RoleRouter._ROLE_BY_CAPABILITY`
unfoldable pub role_of : Capability → String
role_of Capability.research = "researcher"
role_of Capability.analysis = "researcher"
role_of Capability.code_change = "executor"
role_of Capability.verification = "executor"
role_of Capability.windows_action = "executor"

unfoldable pub route : String → Option String
unfolding parse_capability role_of
route capability = elim (parse_capability capability) [ none ↦ none | some c ↦ some (role_of c) ]
