-- ===== src/Completion/Tests.antt =====
-- Runs at their end, and the theorem at one of them.
use ai_team_os.Prelude.{
  Text, codes, String, ◌≡◌, refl, ◌↔◌, false, none, some, List, [], ◌∷◌, All, strip, insert,
}
use ai_team_os.Plan.Schemas.{fill_orchestration_contract}
use ai_team_os.Plan.Recovery.Defs.{specialist}
use ai_team_os.Plan.Shape.{read_only_research, code_change}
use ai_team_os.Flow.Defs.{SubtaskState, passed, Claim}
use ai_team_os.Flow.Reducers.{add_keys}
use ai_team_os.Completion.Defs.{
  FinalState, active, requested_count, results_of, validate, claim_count,
}
use ai_team_os.Completion.Finalize.{completed, completion_invalid, has_pending, finalize, all_refs}
use ai_team_os.Completion.Laws.{HasSummary, FitsShape, finalize-completed_iff}

abbrev claim : Claim
claim = record { claim_id = "c1"; evidence_ids = "e1" ∷ [] }

abbrev answered : SubtaskState
answered = record {
  spec =
      specialist "a" "step" (codes "goal") [] "research" [] "facts" ("not empty" ∷ [])
        ("fixture_repo_lookup" ∷ []) 500 3;
  runtime_status = passed;
  execution_result = some (record {
    summary = codes "found";
    claims = claim ∷ [];
    evidence_refs = "e1" ∷ [];
    unverified_items = [];
    metadata_status = none;
    metadata_approval_id = none;
    metadata_test_report = none;
  });
  evidence_refs = "e1" ∷ "e1" ∷ [];
  review_history = [];
  rework_count = 0;
  rework_signatures = [];
  superseded = false;
}

abbrev asked : Text → FinalState
asked goal = record {
  user_goal = goal;
  subtasks = answered ∷ [];
  tools_called = [];
  is_verified = λ r. false;
}

three_asked : requested_count (codes "请对比 3 个框架") ≡ some 3
unfolding requested_count
three_asked = refl

one_completed : finalize (asked (codes "goal")) read_only_research [] ≡ completed ("e1" ∷ [])
unfolding finalize validate add_keys results_of strip claim_count requested_count all_refs insert
one_completed = refl

two_missing :
    finalize (asked (codes "研究2个库")) read_only_research []
    ≡ completion_invalid ("requested_result_count" ∷ [])
unfolding finalize validate add_keys results_of strip claim_count requested_count insert
two_missing = refl

no_executor :
    finalize (asked (codes "goal")) code_change ("approved" ∷ [])
    ≡ completion_invalid ("code_diff" ∷ [])
unfolding finalize validate add_keys results_of strip fill_orchestration_contract insert
no_executor = refl

finalize-completed_iff_example :
    ((l : List String) × (finalize (asked (codes "goal")) read_only_research [] ≡ completed l)) ↔ (
      All (λ (s : SubtaskState). s.runtime_status ≡ passed) (active (asked (codes "goal")).subtasks)
      × (has_pending [] ≡ false)
      × HasSummary read_only_research (active (asked (codes "goal")).subtasks)
      × FitsShape
          (asked (codes "goal"))
          read_only_research
          (active (asked (codes "goal")).subtasks))
finalize-completed_iff_example = finalize-completed_iff (asked (codes "goal")) read_only_research []
