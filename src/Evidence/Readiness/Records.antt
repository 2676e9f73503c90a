-- ===== src/Evidence/Readiness/Records.antt =====
-- The reason codes and models of src/crypto_alpha_agent/evidence/live_readiness.py.
use crypto_research_agent.Common.{String, Bool, Option, List}
use crypto_research_agent.Risk.Rollout.{RolloutReasonCode}

pub data ReadinessReasonCode : Type 0 where
  rollout_gates_not_passed rollout_evidence_inconsistent : ReadinessReasonCode
  paper_evidence_failed insufficient_paper_sample : ReadinessReasonCode
  human_approval_missing strategy_family_mismatch : ReadinessReasonCode
  risk_limits_above_charter : ReadinessReasonCode

-- `passed` is the status "pass"
pub record ChecklistItem : Type 0 where
  pub code : String
  pub passed : Bool

pub record TinyLiveReadinessArtifact (F : Type 0) : Type 0 where
  pub strategy_family : String
  pub ready_for_human_review : Bool
  pub live_execution_enabled : Bool
  pub reason_codes : List ReadinessReasonCode
  pub checklist_items : List ChecklistItem
  pub rollout_reason_codes : List RolloutReasonCode
  pub paper_failure_reasons : List String
  pub max_notional_usd : F
  pub max_daily_loss_usd : F
  pub human_approval_reference : Option String

-- the local variables of `generate_tiny_live_readiness_artifact` that the reasons rest on
pub record Findings : Type 0 where
  pub rollout_passed : Bool
  pub rollout_evidence_consistent : Bool
  pub paper_positive_clean : Bool
  pub sample_covers_rollout : Bool
  pub human_approval_recorded : Bool
  pub strategy_matches : Bool
  pub risk_limits_within_charter : Bool
