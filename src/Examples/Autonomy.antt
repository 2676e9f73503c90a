-- ===== src/Examples/Autonomy.antt =====
-- The creation cycle, the charter guard and the iteration controller at concrete inputs.
use crypto_research_agent.Common.{
  ◌≡◌, ◌↔◌, refl, String, Bool, true, false, not, ◌&&◌, Option, none, some, List, [], ◌∷◌, is_empty,
  any, keep, take, All, Outcome, ok,
}
use crypto_research_agent.Common.Int.{ℤ, pos}
use crypto_research_agent.Common.Float.{is_nonneg}
use crypto_research_agent.Common.Float.Fixed.{fixed_float, fixed-IsOrdered}
use crypto_research_agent.Autonomy.Cycle.{
  Environment, succeeded, CreationObject, CreationCycleReport, run_creation_cycle, finish_cycle,
  cycle_report,
}
use crypto_research_agent.Autonomy.Cycle.Trace.{IsSafeEvent}
use crypto_research_agent.Autonomy.Cycle.Promotion.{is_promoted}
use crypto_research_agent.Autonomy.Cycle.Acceptance.{
  IsPromotable, run_creation_cycle-IsPromotable_iff,
}
use crypto_research_agent.Risk.Charter.Records.{Rule, Idea, text, number, mapping, end, field}
use crypto_research_agent.Risk.Charter.Texts.{texts_of, HasAmounts}
use crypto_research_agent.Pipeline.Iteration.Records.{
  IterationCandidate, code_change_request, low, IterationCandidateBatch, IterationControllerInput,
  ResearchFigures, IterationCycleReport, answered,
}
use crypto_research_agent.Pipeline.Iteration.{
  dump, allowed_evidence_refs, build_iteration_cycle_report,
}
use crypto_research_agent.Pipeline.Iteration.Selection.{
  is_acceptable, IsSafeReport, build_iteration_cycle_report-IsSafeReport,
  build_iteration_cycle_report-keeps,
}

abbrev environment : Environment
environment = record {
  split_command = λ _. ok ("pytest" ∷ "tests/test_a.py" ∷ []);
  create_task_worktree = succeeded;
  builder_exit_code = pos 0;
  run_safe_command = λ _ _. pos 0;
  write_patch = succeeded;
  promote_task = none;
}

abbrev creation : CreationObject
creation = record {
  status = "ready";
  continuation_reason = "Next test.";
  verification_commands = "pytest tests/test_a.py" ∷ [];
}

abbrev cycle : CreationCycleReport
cycle = cycle_report environment creation true none none

run_creation_cycle-IsPromotable_iff_example :
    ((any is_promoted cycle.trace ≡ true) ↔ IsPromotable environment creation true)
    × ((cycle.accepted ≡ true)
        ↔ (IsPromotable environment creation true × (environment.promote_task ≡ none)))
    × All IsSafeEvent cycle.trace
unfolding run_creation_cycle finish_cycle
run_creation_cycle-IsPromotable_iff_example =
    run_creation_cycle-IsPromotable_iff environment creation true refl

abbrev amount_of : String → Option ℤ
amount_of _ = none

abbrev term_in : Rule → String → Bool
term_in _ _ = false

abbrev phrases_in : String → List (String × ℤ)
phrases_in _ = ("needs 200 usd", pos 2000000) ∷ []

phrases_are_amounts :
    (l : List String) → All (λ s. All (λ (p : String × ℤ). is_nonneg p.1 ≡ true) (phrases_in s)) l
unfolding fixed_float
phrases_are_amounts [] = tt
phrases_are_amounts (s ∷ l) = ((refl, tt), phrases_are_amounts l)

abbrev idea : Idea ℤ
idea =
    mapping (field "note" (text "carry") (field "capital_required_usd" (number (pos 2500000)) end))

abbrev candidate : IterationCandidate
candidate = record {
  kind = code_change_request;
  title = "Carry filter";
  rationale = "Basis widened.";
  evidence_refs = "registry:strategy_families" ∷ [];
  expected_value = "Fewer losses.";
  risk_level = low;
  next_actions = "Write the filter." ∷ [];
  required_tests = "tests/test_filter.py" ∷ [];
  required_data_fields = "basis" ∷ [];
  source_discovery_queries = [];
  source_probe_targets = [];
  strategy_family = none;
  target_files = "filter.py" ∷ [];
  human_review_required = true;
  direct_code_write_authorized = false;
  uses_real_capital = false;
  live_order_routing = false;
}

abbrev batch : IterationCandidateBatch
batch = record {
  candidates = candidate ∷ record candidate { human_review_required = false } ∷ [];
  rejected_reason_codes = [];
  uses_real_capital = false;
  live_order_routing = false;
}

abbrev input : IterationControllerInput ℤ
input = record { strategy_family = none; current_capital_usd = pos 3000000; max_candidates = 5 }

abbrev figures : ResearchFigures
figures = record {
  cycle_id = "0123456789abcdef";
  research_evidence_refs = "run:1" ∷ [];
  source_candidate_count = 0;
  strategy_candidate_count = 0;
  governance_family_count = 0;
}

abbrev decoded : String → Outcome (Option IterationCandidateBatch)
decoded _ = ok (some batch)

abbrev digest : String → Outcome String
digest _ = ok "ab"

shown_are_amounts :
    (l : List IterationCandidate)
    → All (λ c. HasAmounts {F = ℤ} ⦃f = fixed_float⦄ phrases_in (dump c)) l
shown_are_amounts [] = tt
shown_are_amounts (c ∷ l) = (phrases_are_amounts (texts_of (dump c)), shown_are_amounts l)

build_iteration_cycle_report-IsSafeReport_example :
    (r : IterationCycleReport ℤ) × (build_iteration_cycle_report input figures amount_of term_in
        phrases_in digest decoded
        (answered "{}")
      ≡ ok r)
    × IsSafeReport amount_of term_in phrases_in input r
unfolding fixed_float
build_iteration_cycle_report-IsSafeReport_example =
    build_iteration_cycle_report-IsSafeReport fixed-IsOrdered amount_of term_in phrases_in input
      figures digest decoded refl refl refl (answered "{}")
      ("ab", some batch, refl, refl, λ b e. shown_are_amounts (take 5 b.candidates))

build_iteration_cycle_report-keeps_example :
    (r : IterationCycleReport ℤ) × (build_iteration_cycle_report input figures amount_of term_in
        phrases_in digest decoded
        (answered "{}")
      ≡ ok r)
    × (r.candidates
        ≡ keep
            (is_acceptable amount_of term_in phrases_in
              (pos 3000000)
              (allowed_evidence_refs ("run:1" ∷ [])))
            (take 5 batch.candidates))
    × (r.accepted ≡ (
        not (is_empty r.candidates) && not batch.uses_real_capital && not batch.live_order_routing))
unfolding fixed_float
build_iteration_cycle_report-keeps_example =
    build_iteration_cycle_report-keeps fixed-IsOrdered amount_of term_in phrases_in input figures
      digest decoded refl refl refl "{}" "ab" batch refl refl refl
      (shown_are_amounts (take 5 batch.candidates))
