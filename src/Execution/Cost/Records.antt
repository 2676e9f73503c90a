-- ===== src/Execution/Cost/Records.antt =====
-- The models of src/crypto_alpha_agent/execution/cost_model.py. Times are those of `datetime`, of an
-- unknown type, and the fields that are not read (`exit_timestamp`, `next_funding_at`) are left out.
-- `untradeable` is the status "blocked" of an estimate.
use crypto_research_agent.Common.{Eq, eq_of_discrete, String, Bool, Option, List}

pub data CostModelMode : Type 0 where
  base pessimistic : CostModelMode

unfoldable pub CostModelMode-discrete : Discrete CostModelMode
CostModelMode-discrete = hlevel

instance abbrev pub cost_mode_eq : Eq CostModelMode
cost_mode_eq = eq_of_discrete CostModelMode-discrete

pub data ExecutionEstimateStatus : Type 0 where
  tradeable untradeable : ExecutionEstimateStatus

pub data FillStatus : Type 0 where
  full partial missed blocked : FillStatus

pub data StaleSignalStatus : Type 0 where
  fresh stale not_evaluated : StaleSignalStatus

pub record ExchangeFeeSchedule (F : Type 0) : Type 0 where
  pub venue : String
  pub fee_model_id : String
  pub maker_fee_rate : F
  pub taker_fee_rate : F
  pub source : String

pub record SymbolMarketConstraints (F : Type 0) : Type 0 where
  pub venue : String
  pub symbol : String
  pub min_notional_usd : F
  pub min_quantity : F
  pub quantity_step : F
  pub tick_size : F
  pub source : String

pub record ExecutionCostAssumptions (F : Type 0) : Type 0 where
  pub venue : String
  pub cost_model_mode : CostModelMode
  pub max_notional_usd : F
  pub fee_rate_floor : F
  pub fixed_slippage_bps : F
  pub max_signal_age_seconds : Option F
  pub max_volume_participation_rate : F
  pub allow_partial_fills : Bool
  pub fee_schedule : Option (ExchangeFeeSchedule F)
  pub symbol_constraints : Option (SymbolMarketConstraints F)

pub record ExecutionTradeSpec (F Time : Type 0) : Type 0 where
  pub symbol : String
  pub venue : String
  pub direction : String
  pub signal_timestamp : Time
  pub entry_timestamp : Time
  pub entry_reference_price : F
  pub exit_reference_price : F
  pub raw_return : F
  pub requested_notional_usd : F
  pub entry_volume : Option F
  pub exit_volume : Option F

pub record ExecutionCostEstimate (F : Type 0) : Type 0 where
  pub status : ExecutionEstimateStatus
  pub venue : String
  pub symbol : String
  pub cost_model_mode : CostModelMode
  pub fee_model_id : String
  pub maker_fee_rate : F
  pub taker_fee_rate : F
  pub applied_entry_fee_rate : F
  pub applied_exit_fee_rate : F
  pub slippage_bps : F
  pub stale_signal_status : StaleSignalStatus
  pub signal_age_seconds : Option F
  pub fill_status : FillStatus
  pub fill_ratio : F
  pub entry_price : F
  pub exit_price : F
  pub quantity : F
  pub requested_notional_usd : F
  pub effective_notional_usd : F
  pub gross_pnl_usd : F
  pub entry_fee_usd : F
  pub exit_fee_usd : F
  pub fees_usd : F
  pub slippage_usd : F
  pub net_pnl_usd : F
  pub max_drawdown_usd : F
  pub failure_reasons : List String

-- the local variables that a fill sets
pub record Fill (F : Type 0) : Type 0 where
  pub status : FillStatus
  pub ratio : F
  pub quantity : F
  pub notional : F
  pub reasons : List String

-- the local variables of an estimate before its fill
pub record Sizing (F : Type 0) : Type 0 where
  pub entry_price : F
  pub exit_price : F
  pub requested : F
  pub quantity : F
  pub notional : F
