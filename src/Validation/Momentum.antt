-- ===== src/Validation/Momentum.antt =====
-- src/crypto_alpha_agent/validation/momentum.py: momentum of the closing prices, tested on history. A
-- time is a value that `earlier` compares.
pub mod Marks
pub mod Trades
pub mod Loop
pub mod Counted
pub mod Approval
use crypto_research_agent.Common.{
  ℕ, zero, suc, ◌+◌, ◌-◌, String, append_text, Bool, true, false, not, ◌&&◌, ◌||◌, List, [], ◌∷◌,
  ◌++◌, map, if◌then◌else◌, ltb, ◌==◌, is_empty, any, length, replicate, flags, ◌=?◌, string_eq,
  Outcome, ok, err, value_error, index_error, runtime_error, Error, validation_error, ◌>>=◌, ◌>>◌,
  raise_if,
}
use crypto_research_agent.Common.Int.{ℤ, pos, negsuc}
use crypto_research_agent.Common.Float.{Float}
use crypto_research_agent.Common.Division.{quotient_of}
use crypto_research_agent.Common.Sorting.{sort_by}
use crypto_research_agent.Backtest.{Numpy, BacktestResult, run_vectorbt_backtest}

-- the fields of `CandleBar` that the validator reads
pub record CandleBar (F Time : Type 0) : Type 0 where
  pub symbol : String
  pub timestamp : Time
  pub timeframe : String
  pub close : F

pub record MomentumValidationResult (F : Type 0) : Type 0 where
  pub strategy_family : String
  pub symbol : String
  pub timeframe : String
  pub bar_count : ℕ
  pub trade_count : ℕ
  pub gross_expectancy : F
  pub net_return : F
  pub max_drawdown : F
  pub fee_adjusted_expectancy : F
  pub slippage_adjusted_expectancy : F
  pub approved : Bool
  pub blocked_reasons : List String

-- entries, exits and raw returns
pub record Signals (F : Type 0) : Type 0 where
  pub entries : List Bool
  pub exits : List Bool
  pub raw_returns : List F

-- `flags[index] = True`
abbrev pub set_at : ℕ → List Bool → Outcome (List Bool)
set_at i [] = err index_error
set_at zero (b ∷ bs) = ok (true ∷ bs)
set_at (suc i) (b ∷ bs) = let rest = set_at i bs in rest >>= λ cs. ok (b ∷ cs)

-- `prices[index]`
abbrev pub price_at {ℓ} : {A : Type ℓ} → List A → ℕ → Outcome A
price_at [] i = err index_error
price_at (p ∷ prices) zero = ok p
price_at (p ∷ prices) (suc i) = price_at prices i

-- `len(set(values)) == 1`
abbrev pub has_one_value : List String → Bool
has_one_value [] = false
has_one_value (v ∷ vs) = not (any (λ w. not (v =? w)) vs)

abbrev pub require_positive : String → ℤ → Outcome ℕ
require_positive message (pos (suc n)) = ok (suc n)
require_positive message _ = err (value_error message)

abbrev pub require_nonneg : String → ℤ → Outcome ℕ
require_nonneg message (pos n) = ok n
require_nonneg message (negsuc n) = err (value_error message)

-- what stands for a loop that does not end in its rounds
abbrev pub out_of_rounds : Error
out_of_rounds = runtime_error "the loop goes on"

module _ {F : Type 0} ⦃f : Float F⦄ where
  open f use {nought, decimal, is_finite, le, lt, sub, div, total}

  module _ (prices : List F) where
    unfoldable pub raw_return : ℕ → ℕ → Outcome F
    raw_return hold index = do
      exit_price ← price_at prices (index + hold)
      entry_price ← price_at prices index
      quotient_of (sub exit_price entry_price) entry_price

    -- `prices[index] > prices[index - lookback_bars]`; the index is never less than `lookback`.
    unfoldable pub is_rising : ℕ → ℕ → Outcome Bool
    is_rising lookback index = do
      price ← price_at prices index
      earlier ← price_at prices (index - lookback)
      ok (lt earlier price)

    unfoldable pub book_signal : ℕ → ℕ → Signals F → Outcome (Signals F)
    book_signal hold index s = do
      entries ← set_at index s.entries
      exits ← set_at (index + hold) s.exits
      r ← raw_return hold index
      ok (record { entries = entries; exits = exits; raw_returns = s.raw_returns ++ r ∷ [] })

    -- The loop. Rounds that are used up while the loop goes on are an error, which marks a loop that does
    -- not end.
    unfoldable pub signals_from : ℕ → ℕ → ℕ → ℕ → Signals F → Outcome (Signals F)
    signals_from lookback hold zero index s =
        if ltb (index + hold) (length prices) then err out_of_rounds else ok s
    signals_from lookback hold (suc fuel) index s =
        let more = is_rising lookback index >>= λ rising.
        let next = if rising then index + hold + 1 else index + 1 in
        let booked = if rising then book_signal hold index s else ok s in
        booked >>= λ t. signals_from lookback hold fuel next t in
        if ltb (index + hold) (length prices) then more else ok s

    -- `_momentum_signals`
    unfoldable pub momentum_signals : ℕ → ℕ → Outcome (Signals F)
    momentum_signals lookback hold = signals_from lookback hold (length prices) lookback (record {
      entries = replicate (length prices) false;
      exits = replicate (length prices) false;
      raw_returns = [];
    })

  -- the metrics of too short a history
  abbrev pub no_backtest : BacktestResult F
  no_backtest = record {
    net_return = nought;
    max_drawdown = nought;
    win_rate = nought;
    trade_count = 0;
    average_holding_time = nought;
    fee_adjusted_expectancy = nought;
    slippage_adjusted_expectancy = nought;
  }

  -- `_blocked_reasons`
  abbrev pub momentum_blocked_reasons : ℕ → ℕ → ℕ → ℕ → BacktestResult F → List (Bool × String)
  momentum_blocked_reasons bar_count lookback hold min_trades b =
      (ltb bar_count (lookback + hold + 1), "insufficient_bars")
      ∷ (ltb b.trade_count min_trades, "insufficient_trades")
      ∷ (le b.fee_adjusted_expectancy nought, "non_positive_expectancy")
      ∷ (le b.net_return nought, "non_positive_net_return")
      ∷ []

  abbrev pub gross_expectancy_of : List F → F
  gross_expectancy_of [] = nought
  gross_expectancy_of (r ∷ rs) = div (total (r ∷ rs)) (decimal (length (r ∷ rs)) 0)

  -- the model's refusal of floats that are not finite
  unfoldable pub check_momentum_result :
      MomentumValidationResult F → Outcome (MomentumValidationResult F)
  check_momentum_result r = do
    raise_if
        (not (
          is_finite r.gross_expectancy
          && is_finite r.net_return
          && is_finite r.max_drawdown
          && is_finite r.fee_adjusted_expectancy
          && is_finite r.slippage_adjusted_expectancy))
        (validation_error "MomentumValidationResult")
    ok r

  -- the result of the first bar's symbol and time frame
  unfoldable pub momentum_result :
      String → String → ℕ → ℕ → ℕ → ℕ → List F → BacktestResult F → MomentumValidationResult F
  momentum_result symbol timeframe bar_count lookback hold min_trades raw_returns b =
      let reasons = flags (momentum_blocked_reasons bar_count lookback hold min_trades b) in
      record {
        strategy_family = "close_momentum";
        symbol = symbol;
        timeframe = timeframe;
        bar_count = bar_count;
        trade_count = b.trade_count;
        gross_expectancy = gross_expectancy_of raw_returns;
        net_return = b.net_return;
        max_drawdown = b.max_drawdown;
        fee_adjusted_expectancy = b.fee_adjusted_expectancy;
        slippage_adjusted_expectancy = b.slippage_adjusted_expectancy;
        approved = is_empty reasons;
        blocked_reasons = reasons;
      }

  module _ (numpy : Numpy F)
      (portfolio_value : List F → List Bool → List Bool → F → F → List F) where
    unfoldable pub backtest_prices : List F → Signals F → F → F → Outcome (BacktestResult F)
    backtest_prices prices s fee_rate slippage_rate =
        if ltb (length prices) 2
        then ok no_backtest
        else run_vectorbt_backtest numpy portfolio_value prices s.entries s.exits fee_rate
            slippage_rate

    module _ {Time : Type 0} where
      abbrev pub first_bar : List (CandleBar F Time) → Outcome (CandleBar F Time)
      first_bar [] = err index_error
      first_bar (bar ∷ bars) = ok bar

    module _ {Time : Type 0} (earlier : Time → Time → Bool) where
      abbrev pub sorted_bars : List (CandleBar F Time) → List (CandleBar F Time)
      sorted_bars bars = sort_by (λ a b. earlier a.timestamp b.timestamp) bars

      unfoldable pub validate_close_momentum :
          List (CandleBar F Time) → ℤ → ℤ → F → F → ℤ → Outcome (MomentumValidationResult F)
      validate_close_momentum bars lookback_bars hold_bars fee_rate slippage_rate min_trades =
          let ordered = sorted_bars bars in
          let prices = map (λ bar. bar.close) ordered in
          do
            lookback ← require_positive "lookback_bars must be greater than 0" lookback_bars
            hold ← require_positive "hold_bars must be greater than 0" hold_bars
            trades ← require_nonneg "min_trades must be non-negative" min_trades
            raise_if (not (is_finite fee_rate) || lt fee_rate nought)
                (value_error "fee_rate must be finite and non-negative")
            raise_if (not (is_finite slippage_rate) || lt slippage_rate nought)
                (value_error "slippage_rate must be finite and non-negative")
            raise_if (is_empty bars) (value_error "bars must be non-empty")
            raise_if (not (has_one_value (map (λ bar. bar.symbol) bars)))
                (value_error "bars must contain exactly one symbol")
            raise_if (not (has_one_value (map (λ bar. bar.timeframe) bars)))
                (value_error "bars must contain exactly one timeframe")
            signals ← momentum_signals prices lookback hold
            backtest ← backtest_prices prices signals fee_rate slippage_rate
            first ← first_bar ordered
            check_momentum_result (
                momentum_result first.symbol first.timeframe (length ordered) lookback hold trades
                  signals.raw_returns backtest)
