-- ===== src/Examples/Cost.antt =====
-- The estimate of a trade's costs at concrete inputs: a trade that pays, and one at a price below a tick.
use crypto_research_agent.Common.{
  ℕ, zero, suc, arith, ◌<◌, ◌+◌, ◌-◌, ◌*◌, ◌/◌, ◌≡◌, refl, Bool, true, none, some, [], err,
  if◌then◌else◌, zero_division_error,
}
use native.Mathlib.Nat.{div-eq_of_lt}
use crypto_research_agent.Common.Int.{ℤ, pos, negsuc}
use crypto_research_agent.Common.Float.Fixed.{fixed_float}
use crypto_research_agent.Execution.Cost.{
  base, tradeable, fresh, full, SymbolMarketConstraints, ExchangeFeeSchedule,
  ExecutionCostAssumptions, ExecutionTradeSpec, ExecutionCostEstimate,
}
use crypto_research_agent.Execution.Cost.Estimate.{estimate_execution_cost, adverse_price}
use crypto_research_agent.Execution.Cost.Estimate.Sizes.{RoundsDown, estimate_execution_cost_zero}
use crypto_research_agent.Execution.Cost.Estimate.{adverse_price}

abbrev round_multiple : Bool → ℤ → ℤ → ℤ
round_multiple up (pos v) (pos (suc s)) =
    if up then pos ((v + s) / suc s * suc s) else pos (v / suc s * suc s)
round_multiple up v s = v

abbrev elapsed : ℕ → ℕ → ℤ
elapsed a b = pos ((b - a) * 10000)

abbrev fees : ExchangeFeeSchedule ℤ
fees = record {
  venue = "binance";
  fee_model_id = "m";
  maker_fee_rate = pos 10;
  taker_fee_rate = pos 20;
  source = "s";
}

abbrev limits : SymbolMarketConstraints ℤ
limits = record {
  venue = "binance";
  symbol = "BTC";
  min_notional_usd = pos 50000;
  min_quantity = pos 10;
  quantity_step = pos 10;
  tick_size = pos 100;
  source = "s";
}

abbrev assumptions : ExecutionCostAssumptions ℤ
assumptions = record {
  venue = "binance";
  cost_model_mode = base;
  max_notional_usd = pos 1000000;
  fee_rate_floor = pos 30;
  fixed_slippage_bps = pos 50000;
  max_signal_age_seconds = some (pos 600000);
  max_volume_participation_rate = pos 100;
  allow_partial_fills = true;
  fee_schedule = some fees;
  symbol_constraints = some limits;
}

abbrev spec : ℤ → ℤ → ExecutionTradeSpec ℤ ℕ
spec entry_price raw_return = record {
  symbol = "BTC";
  venue = "binance";
  direction = "long";
  signal_timestamp = 0;
  entry_timestamp = 30;
  entry_reference_price = entry_price;
  exit_reference_price = pos 110000;
  raw_return = raw_return;
  requested_notional_usd = pos 500000;
  entry_volume = none;
  exit_volume = none;
}

abbrev made : ExecutionCostEstimate ℤ
made = record {
  status = tradeable;
  venue = "binance";
  symbol = "BTC";
  cost_model_mode = base;
  fee_model_id = "m";
  maker_fee_rate = pos 10;
  taker_fee_rate = pos 20;
  applied_entry_fee_rate = pos 20;
  applied_exit_fee_rate = pos 20;
  slippage_bps = pos 50000;
  stale_signal_status = fresh;
  signal_age_seconds = some (pos 300000);
  fill_status = full;
  fill_ratio = pos 10000;
  entry_price = pos 100000;
  exit_price = pos 110000;
  quantity = pos 50000;
  requested_notional_usd = pos 500000;
  effective_notional_usd = pos 500000;
  gross_pnl_usd = pos 50000;
  entry_fee_usd = pos 1000;
  exit_fee_usd = pos 1000;
  fees_usd = pos 2000;
  slippage_usd = pos 500;
  net_pnl_usd = pos 47500;
  max_drawdown_usd = pos 0;
  failure_reasons = [];
}

abbrev short : ExecutionTradeSpec ℤ ℕ
short = record (spec (pos 90) (pos 1000)) { direction = "short" }

rounds_down : RoundsDown round_multiple
unfolding fixed_float
rounds_down (pos v) (pos (suc s)) tick low high =
    let less : v < suc s = ground arith in
    let none_whole : v / suc s * suc s ≡ 0 = rw (div-eq_of_lt less) (omega arith) in
    rw none_whole refl
rounds_down (negsuc v) step tick low high = absurd (ground arith)
rounds_down (pos v) (pos zero) tick low high = absurd (ground arith)
rounds_down (pos v) (negsuc s) tick low high = absurd (ground arith)

estimate_execution_cost_zero_example :
    estimate_execution_cost round_multiple elapsed short assumptions ≡ err zero_division_error
unfolding fixed_float
estimate_execution_cost_zero_example =
    estimate_execution_cost_zero round_multiple elapsed rounds_down short assumptions refl refl refl
      refl refl refl
