-- ===== src/Evidence/Models.antt =====
-- src/crypto_alpha_agent/evidence/models.py and evidence/paper.py: the records of evidence. Times are the texts that `isoformat` gives.
use crypto_research_agent.Common.{ℕ, String, Bool, Option, List}
use crypto_research_agent.Evidence.Json.{Value}

-- `execution_mode` has one value only.
pub record StrategyCandidate (F : Type 0) : Type 0 where
  pub candidate_id : String
  pub strategy_family : String
  pub symbol : String
  pub venue : String
  pub timeframe : String
  pub parameters : Value F
  pub current_capital_usd : F
  pub min_capital_usd : F
  pub data_sources : List String
  pub created_at : String
  pub requires_speed_edge : Bool
  pub requires_premium_rpc : Bool
  pub live_order_routing : Bool
  pub blocked_reasons : List String

pub record ExperimentRun : Type 0 where
  pub run_id : String
  pub candidate_id : String
  pub strategy_family : String
  pub started_at : String
  pub data_sources : List String
  pub status : String
  pub validation_evidence_ids : List String
  pub paper_outcome_ids : List String
  pub notes : List String
  pub live_order_routing : Bool

pub record PaperSimulationOutcome (F : Type 0) : Type 0 where
  pub outcome_id : String
  pub run_id : String
  pub candidate_id : String
  pub strategy_family : String
  pub symbol : String
  pub observed_at : String
  pub status : String
  pub signal_timestamp : String
  pub entry_price : F
  pub exit_price : F
  pub quantity : F
  pub notional_usd : F
  pub gross_pnl_usd : F
  pub fees_usd : F
  pub slippage_usd : F
  pub net_pnl_usd : F
  pub max_drawdown_usd : F
  pub failure_reasons : List String
  pub venue : String
  pub cost_model_mode : String
  pub fee_model_id : String
  pub maker_fee_rate : F
  pub taker_fee_rate : F
  pub applied_entry_fee_rate : F
  pub applied_exit_fee_rate : F
  pub entry_fee_usd : F
  pub exit_fee_usd : F
  pub slippage_bps : F
  pub stale_signal_status : String
  pub signal_age_seconds : Option F
  pub fill_status : String
  pub fill_ratio : F
  pub touched_real_capital : Bool
  pub live_order_routing : Bool

pub record ValidationEvidence (F : Type 0) : Type 0 where
  pub evidence_id : String
  pub run_id : Option String
  pub strategy_family : String
  pub symbol : String
  pub timeframe : String
  pub validator_name : String
  pub trade_count : ℕ
  pub net_return : F
  pub gross_expectancy : F
  pub fee_adjusted_expectancy : F
  pub slippage_adjusted_expectancy : F
  pub max_drawdown : F
  pub walk_forward_split_count : ℕ
  pub walk_forward_pass_rate : F
  pub approved : Bool
  pub blocked_reasons : List String

pub record PaperEvidencePackage (F : Type 0) : Type 0 where
  pub strategy_family : String
  pub sample_size : ℕ
  pub closed_count : ℕ
  pub failed_count : ℕ
  pub blocked_count : ℕ
  pub net_pnl_usd : F
  pub hit_rate : F
  pub max_drawdown_usd : F
  pub total_notional_usd : F
  pub gross_pnl_usd : F
  pub total_fees_usd : F
  pub total_slippage_usd : F
  pub stale_signal_count : ℕ
  pub missed_fill_count : ℕ
  pub partial_fill_count : ℕ
  pub cost_model_modes : List String
  pub failure_reasons : List String
  pub approved_for_review : Bool
