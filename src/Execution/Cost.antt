-- ===== src/Execution/Cost.antt =====
-- src/crypto_alpha_agent/execution/cost_model.py: what a simulated trade would cost, and whether it
-- could be made. `decimal.Decimal` and `datetime` are parameters: `round_to_multiple up value step` is the
-- multiple of a positive step next to a value, and `elapsed_seconds` the seconds between two times.
mod Records
pub mod Estimate
unfoldable pub use Records.*
use text.Mathlib.Text.{starts_with}
use crypto_research_agent.Common.{
  String, append_text, Bool, true, false, not, ◌&&◌, ◌||◌, Option, none, some, List, [], ◌∷◌, ◌++◌,
  if◌then◌else◌, is_empty, is_none, is_blank, strip, lower, flags, ◌=?◌, string_eq, Outcome, ok,
  err, value_error, validation_error, ◌>>=◌, ◌>>◌, raise_if,
}
use crypto_research_agent.Common.Dict.{Dict}
use crypto_research_agent.Common.Float.{Float, larger, smaller, is_nonneg}
use crypto_research_agent.Common.Division.{quotient_of}
use crypto_research_agent.Common.Dedupe.{dedupe_nonempty}

-- `_strip_nonblank`
unfoldable pub strip_nonblank : String → Outcome String
strip_nonblank value = do
  raise_if (is_blank (strip value)) (value_error "must be non-empty")
  ok (strip value)

module _ {F : Type 0} ⦃f : Float F⦄ where
  open f use {nought, decimal, is_finite, le, lt, same, add, sub, mul, div, neg}

  -- the fields and validators of a fee schedule
  unfoldable pub check_schedule : ExchangeFeeSchedule F → Outcome (ExchangeFeeSchedule F)
  check_schedule s = do
    venue ← strip_nonblank s.venue
    fee_model_id ← strip_nonblank s.fee_model_id
    source ← strip_nonblank s.source
    raise_if (not (is_nonneg s.maker_fee_rate && is_nonneg s.taker_fee_rate))
        (validation_error "ExchangeFeeSchedule")
    raise_if (lt s.taker_fee_rate s.maker_fee_rate)
        (value_error "taker_fee_rate must be greater than or equal to maker_fee_rate")
    ok (record s { venue = lower venue; fee_model_id = fee_model_id; source = source })

  abbrev pub schedule : String → String → F → F → String → ExchangeFeeSchedule F
  schedule venue fee_model_id maker taker source = record {
    venue = venue;
    fee_model_id = fee_model_id;
    maker_fee_rate = maker;
    taker_fee_rate = taker;
    source = source;
  }

  unfoldable pub default_fee_schedules : List (ExchangeFeeSchedule F)
  default_fee_schedules =
      schedule "binance" "binance:public-maker-taker:conservative" (decimal 2 4) (decimal 5 4)
        "https://www.binance.com/en/fee/futureFee"
      ∷ schedule "okx" "okx:public-maker-taker:conservative" (decimal 2 4) (decimal 5 4)
          "configured_public_fee_schedule"
      ∷ schedule "bybit" "bybit:public-maker-taker:conservative" (decimal 2 4) (decimal 55 5)
          "configured_public_fee_schedule"
      ∷ []

  -- `_DEFAULT_FEE_SCHEDULES.get(venue, default)`, whose keys are the venues of the values
  unfoldable pub find_schedule :
      String → ExchangeFeeSchedule F → List (ExchangeFeeSchedule F) → ExchangeFeeSchedule F
  find_schedule venue default [] = default
  find_schedule venue default (s ∷ ss) =
      if s.venue =? venue then s else find_schedule venue default ss

  unfoldable pub default_fee_schedule : String → Outcome (ExchangeFeeSchedule F)
  default_fee_schedule venue = do
    stripped ← strip_nonblank venue
    let normalized = lower stripped
    generic ← check_schedule (
        schedule normalized (append_text normalized ":generic-conservative-maker-taker")
          (decimal 1 3) (decimal 1 3) "configured_public_fee_schedule")
    ok (find_schedule normalized generic default_fee_schedules)

  unfoldable pub check_constraints : SymbolMarketConstraints F → Outcome (SymbolMarketConstraints F)
  check_constraints c = do
    venue ← strip_nonblank c.venue
    symbol ← strip_nonblank c.symbol
    source ← strip_nonblank c.source
    raise_if
        (not (
          is_nonneg c.min_notional_usd
          && is_nonneg c.min_quantity
          && is_nonneg c.quantity_step
          && is_nonneg c.tick_size))
        (validation_error "SymbolMarketConstraints")
    ok (record c { venue = lower venue; symbol = symbol; source = source })

  abbrev pub constraints_of : String → String → F → F → F → F → String → SymbolMarketConstraints F
  constraints_of venue symbol min_notional min_quantity step tick source = record {
    venue = venue;
    symbol = symbol;
    min_notional_usd = min_notional;
    min_quantity = min_quantity;
    quantity_step = step;
    tick_size = tick;
    source = source;
  }

  unfoldable pub default_constraints : List (SymbolMarketConstraints F)
  default_constraints =
      constraints_of "binance" "BTC/USDT:USDT" (decimal 5 0) (decimal 1 3) (decimal 1 3)
        (decimal 1 1)
        "https://developers.binance.com/docs/derivatives/usds-margined-futures/market-data/rest-api/Exchange-Information"
      ∷ constraints_of "binance" "ETH/USDT:USDT" (decimal 5 0) (decimal 1 3) (decimal 1 3)
          (decimal 1 2)
          "https://developers.binance.com/docs/derivatives/usds-margined-futures/market-data/rest-api/Exchange-Information"
      ∷ constraints_of "binance" "BTC/USDT" (decimal 5 0) (decimal 1 5) (decimal 1 5) (decimal 1 2)
          "https://developers.binance.com/docs/binance-spot-api-docs/filters"
      ∷ []

  unfoldable pub find_constraints :
      String
      → String
      → SymbolMarketConstraints F
      → List (SymbolMarketConstraints F)
      → SymbolMarketConstraints F
  find_constraints venue symbol default [] = default
  find_constraints venue symbol default (c ∷ cs) =
      if (c.venue =? venue) && (c.symbol =? symbol)
      then c
      else find_constraints venue symbol default cs

  unfoldable pub default_symbol_constraints : String → String → Outcome (SymbolMarketConstraints F)
  default_symbol_constraints venue symbol = do
    stripped ← strip_nonblank venue
    let normalized_venue = lower stripped
    normalized_symbol ← strip_nonblank symbol
    generic ← check_constraints (
        constraints_of normalized_venue normalized_symbol (decimal 5 0) (decimal 0 0) (decimal 1 6)
          (decimal 1 2) "configured_public_exchange_metadata")
    ok (find_constraints normalized_venue normalized_symbol generic default_constraints)

  unfoldable pub applied_fee_rate : ExchangeFeeSchedule F → ExecutionCostAssumptions F → F
  applied_fee_rate s assumptions =
      if assumptions.cost_model_mode =? base
      then s.taker_fee_rate
      else larger s.taker_fee_rate assumptions.fee_rate_floor
