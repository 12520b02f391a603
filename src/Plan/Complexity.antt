-- ===== src/Plan/Complexity.antt =====
-- app/core/complexity.py: how complex a goal is, by its markers.
use ai_team_os.Prelude.{
  String, Text, codes, lower, strip, starts_with, contains_any, length, leb, Bool, true, false,
  ◌&&◌, ◌||◌, List, [], ◌∷◌, if◌then◌else◌,
}

pub data TaskComplexity : Type 0 where
  trivial simple standard complex : TaskComplexity

abbrev pub trivial_markers : List String
trivial_markers =
    "现在几点" ∷ "几点了" ∷ "现在时间" ∷ "今天几号" ∷ "今天日期" ∷ "几月几号" ∷ "你好" ∷ "在吗" ∷ "hello" ∷ "hi" ∷ "what time"
    ∷ "date today" ∷ "介绍一下你自己" ∷ "你是谁" ∷ "who are you" ∷ "你可以干什么" ∷ "你能做什么" ∷ "what can you do" ∷ []

abbrev pub simple_markers : List String
simple_markers =
    "找几个" ∷ "找一下" ∷ "帮我找" ∷ "帮我查" ∷ "查一下" ∷ "查查" ∷ "查一查" ∷ "查几个" ∷ "搜一下" ∷ "搜搜" ∷ "搜一搜" ∷ "搜几个"
    ∷ "看看" ∷ "检查一下" ∷ "检查" ∷ "列一下" ∷ "列出" ∷ "总结一下" ∷ "总结这个" ∷ "整理一下" ∷ "有哪些" ∷ "有什么" ∷ "介绍一下"
    ∷ "分析一下" ∷ "find some" ∷ "search for" ∷ "look up" ∷ "summarize" ∷ "list " ∷ "what are"
    ∷ "主要用了什么技术" ∷ []

abbrev pub complex_markers : List String
complex_markers =
    "架构方案" ∷ "架构设计" ∷ "影响范围" ∷ "改进方案" ∷ "实施方案" ∷ "调研报告" ∷ "研究报告" ∷ "结合我们的项目" ∷ "先别改代码" ∷ "提出方案"
    ∷ "然后执行" ∷ "再执行" ∷ "先给方案" ∷ "技术选型报告" ∷ "对比报告" ∷ "决策建议" ∷ "里程碑" ∷ "先测量再改" ∷ []

abbrev pub multi_step_markers : List String
multi_step_markers =
    "对比" ∷ "比较一下" ∷ "跟我们的" ∷ "和我们的" ∷ "与我们的" ∷ "优缺点" ∷ "评估" ∷ "梳理" ∷ "找出" ∷ "设计得不好" ∷ "哪些" ∷ "依赖"
    ∷ "瓶颈" ∷ "安全" ∷ "审计" ∷ "调研" ∷ "类似我们的" ∷ "类似项目" ∷ []

abbrev pub code_markers : List String
code_markers =
    "修复" ∷ "修好" ∷ "测试" ∷ "代码" ∷ "bug" ∷ "patch" ∷ "python" ∷ "pytest" ∷ "实现" ∷ "重构" ∷ "报错" ∷ "失败测试"
    ∷ "sandbox" ∷ []

abbrev is_empty : Text → Bool
is_empty [] = true
is_empty _ = false

abbrev pub is_scenario : Text → Bool
is_scenario text = starts_with text (codes "scenario:") || starts_with text (codes "sandbox_")

unfoldable pub has_trivial : Text → Bool
has_trivial text = contains_any trivial_markers text

unfoldable pub has_complex : Text → Bool
has_complex text = contains_any complex_markers text

unfoldable pub has_multi_step : Text → Bool
has_multi_step text = contains_any multi_step_markers text

unfoldable pub has_simple : Text → Bool
has_simple text = contains_any simple_markers text

unfoldable pub has_code : Text → Bool
has_code text = contains_any code_markers text

-- The goal after `(goal or "").strip().lower()`.
abbrev pub plain_text : Text → Text
plain_text goal = lower (strip goal)

unfoldable pub classify_task : Text → TaskComplexity
classify_task goal =
    let text = plain_text goal in
    if is_empty text
    then standard
    else if is_scenario goal || is_scenario text
    then standard
    else if starts_with text (codes "conversation_followup:")
    then simple
    else if has_trivial text && leb (length text) 24
    then trivial
    else if has_complex text
    then complex
    else if has_multi_step text
    then standard
    else if has_simple text
    then simple
    else if has_code text
    then standard
    else standard
