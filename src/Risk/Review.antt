-- ===== src/Risk/Review.antt =====
-- `build_rollout_review_artifact` of src/crypto_alpha_agent/risk/rollout.py: from the ledgers' rows of
-- one strategy family to the decision whether a human should review a tiny live rollout.
pub mod Decision
use crypto_research_agent.Common.{
  ℕ, String, Bool, true, false, not, ◌&&◌, Option, List, [], ◌∷◌, ◌++◌, map, if◌then◌else◌, Outcome,
  ok, err, validation_error, ◌>>=◌, ◌>>◌, raise_if,
}
use crypto_research_agent.Common.Float.{Float, is_nonneg}
use crypto_research_agent.Common.Dedupe.{dedupe_nonempty}
use crypto_research_agent.Evidence.Models.{PaperSimulationOutcome, ValidationEvidence}
use crypto_research_agent.Evidence.Readiness.{
  TinyLiveReadinessArtifact, ReadinessReasonCode, rollout_gates_not_passed,
  rollout_evidence_inconsistent, paper_evidence_failed, insufficient_paper_sample,
  human_approval_missing, strategy_family_mismatch, risk_limits_above_charter,
  generate_tiny_live_readiness_artifact,
}
use crypto_research_agent.Risk.Rollout.{
  RolloutPolicy, RolloutEvaluation, RolloutReasonCode, StrategyEvidencePackage,
  insufficient_sample_size, insufficient_walk_forward_splits, non_positive_cost_adjusted_expectancy,
  failure_rate_above_limit, duplicate_paper_trade_evidence, duplicate_walk_forward_split,
  unstable_walk_forward_performance, manual_override_violation, max_loss_budget_breached,
  paper_outcomes_to_rollout_observations, validation_evidence_to_walk_forward_splits,
  evaluate_rollout,
}
use crypto_research_agent.Risk.Rollout.Building.{
  build_strategy_evidence_package, to_paper_evidence_package,
}

pub data ReviewDecision : Type 0 where
  blocked ready_for_human_review : ReviewDecision

pub record RolloutReviewArtifact (F : Type 0) : Type 0 where
  pub decision : ReviewDecision
  pub blocked_reasons : List String
  pub readiness_artifact : TinyLiveReadinessArtifact F
  pub rollout_evaluation : RolloutEvaluation F
  pub evidence_package : StrategyEvidencePackage F
  pub max_observed_loss_usd : F

abbrev pub rollout_text : RolloutReasonCode → String
rollout_text insufficient_sample_size = "insufficient_sample_size"
rollout_text insufficient_walk_forward_splits = "insufficient_walk_forward_splits"
rollout_text non_positive_cost_adjusted_expectancy = "non_positive_cost_adjusted_expectancy"
rollout_text failure_rate_above_limit = "failure_rate_above_limit"
rollout_text duplicate_paper_trade_evidence = "duplicate_paper_trade_evidence"
rollout_text duplicate_walk_forward_split = "duplicate_walk_forward_split"
rollout_text unstable_walk_forward_performance = "unstable_walk_forward_performance"
rollout_text manual_override_violation = "manual_override_violation"
rollout_text max_loss_budget_breached = "max_loss_budget_breached"

abbrev pub readiness_text : ReadinessReasonCode → String
readiness_text rollout_gates_not_passed = "rollout_gates_not_passed"
readiness_text rollout_evidence_inconsistent = "rollout_evidence_inconsistent"
readiness_text paper_evidence_failed = "paper_evidence_failed"
readiness_text insufficient_paper_sample = "insufficient_paper_sample"
readiness_text human_approval_missing = "human_approval_missing"
readiness_text strategy_family_mismatch = "strategy_family_mismatch"
readiness_text risk_limits_above_charter = "risk_limits_above_charter"

module _ {F : Type 0} ⦃f : Float F⦄ where
  open f use {nought, decimal}

  -- `RolloutPolicy(max_loss_budget_usd=...)`, with the defaults of the model
  unfoldable pub default_policy : F → RolloutPolicy F
  default_policy max_loss_budget = record {
    min_paper_trade_count = 30;
    max_failure_rate = decimal 1 1;
    min_walk_forward_splits = 3;
    min_walk_forward_expectancy_usd = nought;
    max_loss_budget_usd = max_loss_budget;
  }

  unfoldable pub review_artifact :
      RolloutEvaluation F
      → StrategyEvidencePackage F
      → TinyLiveReadinessArtifact F
      → RolloutReviewArtifact F
  review_artifact evaluation built artifact = record {
    decision = if artifact.ready_for_human_review then ready_for_human_review else blocked;
    blocked_reasons =
        dedupe_nonempty
          (map rollout_text evaluation.reason_codes ++ map readiness_text artifact.reason_codes);
    readiness_artifact = artifact;
    rollout_evaluation = evaluation;
    evidence_package = built;
    max_observed_loss_usd = built.max_observed_loss_usd;
  }

  unfoldable pub build_rollout_review_artifact :
      List (PaperSimulationOutcome F)
      → List (ValidationEvidence F)
      → String
      → Bool
      → Option String
      → F
      → F
      → Outcome (RolloutReviewArtifact F)
  build_rollout_review_artifact outcomes evidence strategy_family human_approved reference
        max_notional max_daily_loss =
      do
        observations ← paper_outcomes_to_rollout_observations outcomes true
        let splits = validation_evidence_to_walk_forward_splits evidence
        built ← build_strategy_evidence_package outcomes evidence strategy_family
        raise_if (not (is_nonneg max_daily_loss)) (validation_error "RolloutPolicy")
        evaluation ←
            evaluate_rollout (default_policy max_daily_loss) observations splits
              built.max_observed_loss_usd
        artifact ←
            generate_tiny_live_readiness_artifact strategy_family evaluation
              (to_paper_evidence_package built) human_approved reference max_notional max_daily_loss
        ok (review_artifact evaluation built artifact)
