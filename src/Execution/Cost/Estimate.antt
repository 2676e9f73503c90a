-- ===== src/Execution/Cost/Estimate.antt =====
-- `estimate_execution_cost` of src/crypto_alpha_agent/execution/cost_model.py.
pub mod Checked
pub mod Sizes
use text.Mathlib.Text.{starts_with}
use crypto_research_agent.Common.{
  String, Bool, true, false, not, ◌&&◌, ◌||◌, Option, none, some, List, [], ◌∷◌, ◌++◌,
  if◌then◌else◌, is_empty, flags, ◌=?◌, Outcome, ok, err, validation_error, ◌>>=◌, ◌>>◌, raise_if,
  traverse, lower,
}
use crypto_research_agent.Common.Float.{Float, larger, smaller, is_nonneg}
use crypto_research_agent.Common.Division.{quotient_of}
use crypto_research_agent.Common.Dedupe.{dedupe}
use crypto_research_agent.Execution.Cost.{
  strip_nonblank, StaleSignalStatus, fresh, stale, not_evaluated, FillStatus, full, partial, missed,
  blocked, tradeable, untradeable, SymbolMarketConstraints, ExchangeFeeSchedule,
  ExecutionCostAssumptions, ExecutionTradeSpec, ExecutionCostEstimate, Fill, Sizing,
  applied_fee_rate, default_fee_schedule, default_symbol_constraints,
}

abbrev pub is_stale : StaleSignalStatus → Bool
is_stale stale = true
is_stale _ = false

-- `_dedupe_nonempty_strings`, which refuses a blank text
unfoldable pub dedupe_reasons : List String → Outcome (List String)
dedupe_reasons values = traverse strip_nonblank values >>= λ stripped. ok (dedupe stripped)

-- `fill_status if fill_status != "full" else "blocked"`
abbrev pub blocked_if_full : FillStatus → FillStatus
blocked_if_full full = blocked
blocked_if_full status = status

module _ {F : Type 0} ⦃f : Float F⦄ where
  open f use {nought, decimal, is_finite, le, lt, same, add, sub, mul, div, neg}

  -- the minimum of the two capacities that are given
  abbrev pub least_of : Option F → Option F → Option F
  least_of none b = b
  least_of (some a) none = some a
  least_of (some a) (some b) = some (smaller a b)

  abbrev pub capacity_of : Option F → F → F → Option F
  capacity_of none price rate = none
  capacity_of (some volume) price rate = some (mul (mul volume price) rate)

  -- the constraints on the numbers of an estimate
  unfoldable pub accepts_estimate : ExecutionCostEstimate F → Bool
  accepts_estimate e =
      is_nonneg e.maker_fee_rate
      && is_nonneg e.taker_fee_rate
      && is_nonneg e.applied_entry_fee_rate
      && is_nonneg e.applied_exit_fee_rate
      && is_nonneg e.slippage_bps
      && is_nonneg e.fill_ratio
      && le e.fill_ratio (decimal 1 0)
      && is_nonneg e.entry_price
      && is_nonneg e.exit_price
      && is_nonneg e.quantity
      && is_nonneg e.requested_notional_usd
      && is_nonneg e.effective_notional_usd
      && is_finite e.gross_pnl_usd
      && is_nonneg e.entry_fee_usd
      && is_nonneg e.exit_fee_usd
      && is_nonneg e.fees_usd
      && is_nonneg e.slippage_usd
      && is_finite e.net_pnl_usd
      && is_nonneg e.max_drawdown_usd

  -- the fields and validators of an estimate
  unfoldable pub check_estimate : ExecutionCostEstimate F → Outcome (ExecutionCostEstimate F)
  check_estimate e = do
    venue ← strip_nonblank e.venue
    symbol ← strip_nonblank e.symbol
    fee_model_id ← strip_nonblank e.fee_model_id
    raise_if (not (accepts_estimate e)) (validation_error "ExecutionCostEstimate")
    reasons ← dedupe_reasons e.failure_reasons
    ok (record e {
      venue = lower venue;
      symbol = symbol;
      fee_model_id = fee_model_id;
      failure_reasons = reasons;
    })

  abbrev pub age_status : Option F → F → Option F × StaleSignalStatus
  age_status none age = (none, not_evaluated)
  age_status (some limit) age = if lt limit age then (some age, stale) else (some age, fresh)

  -- the reasons that come before the fill
  unfoldable pub sizing_reasons :
      SymbolMarketConstraints F
      → ExecutionCostAssumptions F
      → Sizing F
      → StaleSignalStatus
      → List String
  sizing_reasons c a s stale_status = flags (
      (lt a.max_notional_usd c.min_notional_usd, "min_notional_exceeds_max_notional")
      ∷ (
        lt a.max_notional_usd (mul c.min_quantity s.entry_price),
        "min_quantity_notional_exceeds_max_notional",
      )
      ∷ (le s.quantity nought || lt s.quantity c.min_quantity, "quantity_precision_not_tradeable")
      ∷ (lt a.max_notional_usd s.notional, "rounded_notional_exceeds_max_notional")
      ∷ (
        lt s.notional c.min_notional_usd && lt nought s.notional,
        "effective_notional_below_min_notional",
      )
      ∷ (is_stale stale_status, "stale_signal")
      ∷ [])

  abbrev pub full_fill : Sizing F → Fill F
  full_fill s = record {
    status = full;
    ratio = if lt nought s.notional then decimal 1 0 else nought;
    quantity = s.quantity;
    notional = s.notional;
    reasons = [];
  }

  abbrev pub no_fill : Sizing F → FillStatus → String → Fill F
  no_fill s status reason = record {
    status = status;
    ratio = nought;
    quantity = s.quantity;
    notional = s.notional;
    reasons = reason ∷ [];
  }

  abbrev pub schedule_or_default :
      Option (ExchangeFeeSchedule F) → String → Outcome (ExchangeFeeSchedule F)
  schedule_or_default none venue = default_fee_schedule venue
  schedule_or_default (some s) venue = ok s

  abbrev pub constraints_or_default :
      Option (SymbolMarketConstraints F) → String → String → Outcome (SymbolMarketConstraints F)
  constraints_or_default none venue symbol = default_symbol_constraints venue symbol
  constraints_or_default (some c) venue symbol = ok c

  module _ {Time : Type 0} where
    unfoldable pub volume_capacity_usd : ExecutionTradeSpec F Time → Sizing F → F → Option F
    volume_capacity_usd trade s rate =
        least_of (capacity_of trade.entry_volume s.entry_price rate)
          (capacity_of trade.exit_volume s.exit_price rate)

    unfoldable pub blocked_estimate :
        ExecutionTradeSpec F Time
        → ExecutionCostAssumptions F
        → ExchangeFeeSchedule F
        → Sizing F
        → Option F × StaleSignalStatus
        → FillStatus
        → List String
        → ExecutionCostEstimate F
    blocked_estimate trade a schedule s age status reasons =
        let rate = applied_fee_rate schedule a in
        record {
          status = untradeable;
          venue = a.venue;
          symbol = trade.symbol;
          cost_model_mode = a.cost_model_mode;
          fee_model_id = schedule.fee_model_id;
          maker_fee_rate = schedule.maker_fee_rate;
          taker_fee_rate = schedule.taker_fee_rate;
          applied_entry_fee_rate = rate;
          applied_exit_fee_rate = rate;
          slippage_bps = a.fixed_slippage_bps;
          stale_signal_status = age.1;
          signal_age_seconds = age.0;
          fill_status = status;
          fill_ratio = nought;
          entry_price = s.entry_price;
          exit_price = s.exit_price;
          quantity = nought;
          requested_notional_usd = s.requested;
          effective_notional_usd = nought;
          gross_pnl_usd = nought;
          entry_fee_usd = nought;
          exit_fee_usd = nought;
          fees_usd = nought;
          slippage_usd = nought;
          net_pnl_usd = nought;
          max_drawdown_usd = nought;
          failure_reasons = reasons;
        }

    -- the estimate of a trade that is filled, which is blocked if only its costs make it a loss
    unfoldable pub filled_estimate :
        ExecutionTradeSpec F Time
        → ExecutionCostAssumptions F
        → ExchangeFeeSchedule F
        → Sizing F
        → Option F × StaleSignalStatus
        → Fill F
        → ExecutionCostEstimate F
    filled_estimate trade a schedule s age fill =
        let rate = applied_fee_rate schedule a in
        let gross_pnl = mul fill.notional trade.raw_return in
        let fee = mul fill.notional rate in
        let fees = add fee fee in
        let slippage =
          mul (mul fill.notional (div a.fixed_slippage_bps (decimal 10000 0))) (decimal 2 0) in
        let net_pnl = sub (sub gross_pnl fees) slippage in
        let only_before_costs = lt nought gross_pnl && le net_pnl nought in
        record {
          status = if only_before_costs then untradeable else tradeable;
          venue = a.venue;
          symbol = trade.symbol;
          cost_model_mode = a.cost_model_mode;
          fee_model_id = schedule.fee_model_id;
          maker_fee_rate = schedule.maker_fee_rate;
          taker_fee_rate = schedule.taker_fee_rate;
          applied_entry_fee_rate = rate;
          applied_exit_fee_rate = rate;
          slippage_bps = a.fixed_slippage_bps;
          stale_signal_status = age.1;
          signal_age_seconds = age.0;
          fill_status = fill.status;
          fill_ratio = fill.ratio;
          entry_price = s.entry_price;
          exit_price = s.exit_price;
          quantity = fill.quantity;
          requested_notional_usd = s.requested;
          effective_notional_usd = fill.notional;
          gross_pnl_usd = gross_pnl;
          entry_fee_usd = fee;
          exit_fee_usd = fee;
          fees_usd = fees;
          slippage_usd = slippage;
          net_pnl_usd = net_pnl;
          max_drawdown_usd = larger nought (neg net_pnl);
          failure_reasons = if only_before_costs then "pre_cost_only_profitable" ∷ [] else [];
        }

  module _ {Time : Type 0} (elapsed_seconds : Time → Time → F) where
    unfoldable pub signal_age :
        ExecutionTradeSpec F Time → ExecutionCostAssumptions F → Option F × StaleSignalStatus
    signal_age trade assumptions =
        age_status assumptions.max_signal_age_seconds
          (larger nought (elapsed_seconds trade.signal_timestamp trade.entry_timestamp))

  module _ (round_to_multiple : Bool → F → F → F) where
    unfoldable pub round_to_step : F → F → Bool → F
    round_to_step value step round_up =
        if le step nought then value else round_to_multiple round_up value step

    -- the price of a leg, rounded against the trader
    unfoldable pub adverse_price : F → F → String → Bool → F
    unfolding round_to_step
    adverse_price price tick_size direction is_entry =
        let is_short = starts_with direction "short" in
        let round_up = (is_entry && not is_short) || (not is_entry && is_short) in
        round_to_step price tick_size round_up

    unfoldable pub partial_fill : SymbolMarketConstraints F → Sizing F → F → Fill F
    partial_fill c s capacity =
        let quantity = round_to_step (div capacity s.entry_price) c.quantity_step false in
        let notional = mul quantity s.entry_price in
        if lt nought quantity && le c.min_notional_usd notional
        then record {
          status = partial;
          ratio = if same s.notional nought then nought else div notional s.notional;
          quantity = quantity;
          notional = notional;
          reasons = [];
        }
        else no_fill s blocked "partial_fill_below_min_notional"

    abbrev pub fill_of :
        SymbolMarketConstraints F → ExecutionCostAssumptions F → Sizing F → Option F → Fill F
    fill_of c a s none = full_fill s
    fill_of c a s (some capacity) =
        if lt capacity s.notional
        then (if a.allow_partial_fills && le c.min_notional_usd capacity
            then partial_fill c s capacity
            else no_fill s missed "missed_fill_assumed")
        else full_fill s

    module _ {Time : Type 0} where
      -- the prices and the size; a price that is rounded to zero is a zero divisor
      unfoldable pub size_trade :
          ExecutionTradeSpec F Time
          → ExecutionCostAssumptions F
          → SymbolMarketConstraints F
          → Outcome (Sizing F)
      size_trade trade a c =
          let entry_price =
            adverse_price trade.entry_reference_price c.tick_size trade.direction true in
          let exit_price =
            adverse_price trade.exit_reference_price c.tick_size trade.direction false in
          let requested = smaller trade.requested_notional_usd a.max_notional_usd in
          do
            units ← quotient_of requested entry_price
            let quantity = round_to_step units c.quantity_step false
            ok (record {
              entry_price = entry_price;
              exit_price = exit_price;
              requested = requested;
              quantity = quantity;
              notional = mul quantity entry_price;
            })

      module _ (elapsed_seconds : Time → Time → F) where
        unfoldable pub estimate_sized :
            ExecutionTradeSpec F Time
            → ExecutionCostAssumptions F
            → ExchangeFeeSchedule F
            → SymbolMarketConstraints F
            → Sizing F
            → ExecutionCostEstimate F
        estimate_sized trade a schedule c s =
            let age = signal_age elapsed_seconds trade a in
            let capacity = volume_capacity_usd trade s a.max_volume_participation_rate in
            let fill = fill_of c a s capacity in
            let reasons = sizing_reasons c a s age.1 ++ fill.reasons in
            if not (is_empty reasons)
            then blocked_estimate trade a schedule s age (blocked_if_full fill.status) reasons
            else filled_estimate trade a schedule s age fill

        unfoldable pub estimate_execution_cost :
            ExecutionTradeSpec F Time
            → ExecutionCostAssumptions F
            → Outcome (ExecutionCostEstimate F)
        estimate_execution_cost trade a = do
          schedule ← schedule_or_default a.fee_schedule a.venue
          constraints ← constraints_or_default a.symbol_constraints a.venue trade.symbol
          sizing ← size_trade trade a constraints
          check_estimate (estimate_sized trade a schedule constraints sizing)
