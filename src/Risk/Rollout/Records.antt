-- ===== src/Risk/Rollout/Records.antt =====
-- The reason codes, statuses and pydantic models of src/crypto_alpha_agent/risk/rollout.py.
use crypto_research_agent.Common.{ℕ, String, Bool, List, [], ◌∷◌}

pub data RolloutReasonCode : Type 0 where
  insufficient_sample_size insufficient_walk_forward_splits : RolloutReasonCode
  non_positive_cost_adjusted_expectancy failure_rate_above_limit : RolloutReasonCode
  duplicate_paper_trade_evidence duplicate_walk_forward_split : RolloutReasonCode
  unstable_walk_forward_performance manual_override_violation : RolloutReasonCode
  max_loss_budget_breached : RolloutReasonCode

abbrev pub closed_outcome_statuses : List String
closed_outcome_statuses = "closed" ∷ "filled" ∷ "success" ∷ []

abbrev pub failed_outcome_statuses : List String
failed_outcome_statuses = "failed" ∷ "rejected" ∷ "blocked" ∷ []

abbrev pub failed_observation_statuses : List String
failed_observation_statuses = "failed" ∷ "rejected" ∷ []

-- the union of the first two sets
abbrev pub loss_evidence_statuses : List String
loss_evidence_statuses = "closed" ∷ "filled" ∷ "success" ∷ "failed" ∷ "rejected" ∷ "blocked" ∷ []

pub record RolloutPolicy (F : Type 0) : Type 0 where
  pub min_paper_trade_count : ℕ
  pub max_failure_rate : F
  pub min_walk_forward_splits : ℕ
  pub min_walk_forward_expectancy_usd : F
  pub max_loss_budget_usd : F

pub record PaperTradeObservation (F : Type 0) : Type 0 where
  pub trade_id : String
  pub gross_pnl_usd : F
  pub total_cost_usd : F
  pub failed : Bool
  pub violates_override : Bool

pub record WalkForwardSplit (F : Type 0) : Type 0 where
  pub split_id : String
  pub cost_adjusted_expectancy_usd : F

pub record RolloutEvaluation (F : Type 0) : Type 0 where
  pub eligible_for_tiny_live : Bool
  pub reason_codes : List RolloutReasonCode
  pub observation_count : ℕ
  pub walk_forward_split_count : ℕ
  pub cost_adjusted_expectancy_usd : F
  pub failure_rate : F
  pub max_observed_loss_usd : F

pub record StrategyEvidencePackage (F : Type 0) : Type 0 where
  pub strategy_family : String
  pub validation_evidence_ids : List String
  pub validation_blocked_reasons : List String
  pub paper_outcome_ids : List String
  pub paper_failure_reasons : List String
  pub sample_size : ℕ
  pub closed_count : ℕ
  pub failed_count : ℕ
  pub blocked_count : ℕ
  pub net_pnl_usd : F
  pub hit_rate : F
  pub max_drawdown_usd : F
  pub rollout_observation_count : ℕ
  pub walk_forward_split_count : ℕ
  pub max_observed_loss_usd : F
