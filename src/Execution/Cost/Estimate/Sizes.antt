-- ===== src/Execution/Cost/Estimate/Sizes.antt =====
-- What an estimate says of a trade: a tradeable one is within the limits and pays for its costs, and one
-- that is not moves no money.
use text.Mathlib.Text.{starts_with}
use crypto_research_agent.Common.{◌≡◌, refl, Bool, true, false, arith, ok, err, zero_division_error}
use crypto_research_agent.Common.Float.{Float, IsOrdered, ◌≼◌, ◌≺◌, le-larger}
use crypto_research_agent.Common.Division.{quotient_of}
use crypto_research_agent.Execution.Cost.{
  base, pessimistic, cost_mode_eq, SymbolMarketConstraints, ExchangeFeeSchedule,
  ExecutionCostAssumptions, ExecutionTradeSpec, Fill, Sizing, applied_fee_rate,
}
use crypto_research_agent.Execution.Cost.Estimate.{
  adverse_price, round_to_step, fill_of, size_trade, estimate_execution_cost, schedule_or_default,
  constraints_or_default, volume_capacity_usd,
}

module _ {F : Type 0} ⦃f : Float F⦄ where
  open f use {nought, le, lt, add, sub, mul}

  module _ (round_to_multiple : Bool → F → F → F) where
    -- Rounding down takes what is less than one positive step to zero.
    abbrev pub RoundsDown : Type 0
    RoundsDown =
        (value step : F)
        → le step nought ≡ false
        → nought ≼ value
        → value ≺ step
        → f.same (round_to_multiple false value step) nought ≡ true

    module _ {Time : Type 0} (elapsed_seconds : Time → Time → F) where
      abbrev filling :
          ExecutionTradeSpec F Time
          → ExecutionCostAssumptions F
          → SymbolMarketConstraints F
          → Sizing F
          → Fill F
      filling trade a c s =
          fill_of round_to_multiple c a s
            (volume_capacity_usd trade s a.max_volume_participation_rate)

      -- A short entry at a price below one tick is not refused with a reason: its price is rounded down to
      -- zero, and the division by it raises. The tick is positive, the schedule and the constraints are
      -- found, and rounding down takes what is less than one step to zero.
      pub estimate_execution_cost_zero :
          RoundsDown
          → (trade : ExecutionTradeSpec F Time) (a : ExecutionCostAssumptions F)
            {schedule : ExchangeFeeSchedule F} {c : SymbolMarketConstraints F}
          → schedule_or_default a.fee_schedule a.venue ≡ ok schedule
          → constraints_or_default a.symbol_constraints a.venue trade.symbol ≡ ok c
          → starts_with trade.direction "short" ≡ true
          → le c.tick_size nought ≡ false
          → nought ≼ trade.entry_reference_price
          → trade.entry_reference_price ≺ c.tick_size
          → estimate_execution_cost round_to_multiple elapsed_seconds trade a
            ≡ err zero_division_error
      unfolding estimate_execution_cost size_trade quotient_of adverse_price round_to_step
      estimate_execution_cost_zero rounds trade a {c = c} p q short tick low high =
          let zero : f.same (round_to_multiple false trade.entry_reference_price c.tick_size) nought
              ≡ true =
            rounds trade.entry_reference_price c.tick_size tick low high in
          rw (p, q, short, tick, zero) refl

  -- The fee rate of the pessimistic mode is at least the taker's and at least the floor, and so at least
  -- that of the base mode.
  pub applied_fee_rate_bounds :
      (laws : IsOrdered F) (schedule : ExchangeFeeSchedule F) (a : ExecutionCostAssumptions F)
      → schedule.taker_fee_rate ≼ schedule.taker_fee_rate
      → a.fee_rate_floor ≼ a.fee_rate_floor
      → (schedule.taker_fee_rate ≼ applied_fee_rate schedule a)
        × (a.cost_model_mode ≡ pessimistic → a.fee_rate_floor ≼ applied_fee_rate schedule a)
        × (applied_fee_rate schedule (record a { cost_model_mode = base })
            ≼ applied_fee_rate schedule a)
  unfolding applied_fee_rate
  applied_fee_rate_bounds laws schedule a p q = ground (
    arith,
    le-larger laws schedule.taker_fee_rate a.fee_rate_floor p q,
    cost_mode_eq.beq_iff a.cost_model_mode base,
    cost_mode_eq.beq_iff base base,
  )
