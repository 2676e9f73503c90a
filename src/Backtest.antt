-- ===== src/Backtest.antt =====
-- src/crypto_alpha_agent/backtest/vectorbt_runner.py: the trades that entry and exit signals make of a
-- list of prices, and their summary. The arrays of numpy and the portfolio of vectorbt are parameters.
use crypto_research_agent.Common.{
  ℕ, suc, ◌-◌, Bool, not, ◌&&◌, Option, none, some, List, [], ◌∷◌, map, if◌then◌else◌, ltb, ◌==◌,
  length, get_or, Outcome, ok, err, value_error, index_error, traverse, ◌>>=◌, ◌>>◌, raise_if,
}
use crypto_research_agent.Common.Float.{Float}
use crypto_research_agent.Common.Division.{quotient_of}

-- `np.mean`, of floats and of truth values, `np.maximum.accumulate` and `ndarray.min`
pub record Numpy (F : Type 0) : Type 0 where
  pub mean : List F → F
  pub mean_of_flags : List Bool → F
  pub maximum_accumulate : List F → List F
  pub array_min : List F → F

pub record BacktestResult (F : Type 0) : Type 0 where
  pub net_return : F
  pub max_drawdown : F
  pub win_rate : F
  pub trade_count : ℕ
  pub average_holding_time : F
  pub fee_adjusted_expectancy : F
  pub slippage_adjusted_expectancy : F

pub record Trade (F : Type 0) : Type 0 where
  pub entry_index : ℕ
  pub exit_index : ℕ
  pub entry_price : F
  pub exit_price : F

module _ {ℓ} {A : Type ℓ} where
  abbrev pub zip_signals : List A → List Bool → List Bool → List (A × Bool × Bool)
  zip_signals (a ∷ xs) (b ∷ ys) (c ∷ zs) = (a, b, c) ∷ zip_signals xs ys zs
  zip_signals _ _ _ = []

module _ {F : Type 0} ⦃f : Float F⦄ where
  open f use {nought, decimal, lt, sub, mul, div}

  abbrev pub holding_time : Trade F → F
  holding_time t = decimal (t.exit_index - t.entry_index) 0

  unfoldable pub gross_return : Trade F → Outcome F
  gross_return t = quotient_of (sub t.exit_price t.entry_price) t.entry_price

  -- `_validate_signals`
  unfoldable pub validate_signals : List F → List Bool → List Bool → F → F → Outcome (Unit {0})
  validate_signals prices entries exits fee_rate slippage_rate = do
    raise_if (ltb (length prices) 2) (value_error "backtest requires at least two prices")
    raise_if (not ((length prices == length entries) && (length entries == length exits)))
        (value_error "prices, entries, and exits must have the same length")
    raise_if (lt fee_rate nought) (value_error "fee_rate must be non-negative")
    raise_if (lt slippage_rate nought) (value_error "slippage_rate must be non-negative")
    ok tt

  abbrev pub trade : List F → ℕ → ℕ → Trade F
  trade prices entry_index exit_index = record {
    entry_index = entry_index;
    exit_index = exit_index;
    entry_price = get_or prices entry_index nought;
    exit_price = get_or prices exit_index nought;
  }

  -- The loop from an index on, with the entry that is open.
  unfoldable pub extract_from : List F → ℕ → Option ℕ → List (F × Bool × Bool) → List (Trade F)
  extract_from prices index none [] = []
  extract_from prices index (some opened) [] = trade prices opened (length prices - 1) ∷ []
  extract_from prices index none ((price, entry, exit) ∷ rows) =
      extract_from prices (suc index) (if entry then some index else none) rows
  extract_from prices index (some opened) ((price, entry, exit) ∷ rows) =
      let rest = extract_from prices (suc index) (if exit then none else some opened) rows in
      if exit
      then record {
        entry_index = opened;
        exit_index = index;
        entry_price = get_or prices opened nought;
        exit_price = price;
      }
        ∷ rest
      else rest

  -- `_extract_trades`
  unfoldable pub extract_trades : List F → List Bool → List Bool → List (Trade F)
  extract_trades prices entries exits =
      extract_from prices 0 none (zip_signals prices entries exits)

  abbrev pub last_of : List F → Outcome F
  last_of [] = err index_error
  last_of (x ∷ []) = ok x
  last_of (x ∷ y ∷ ys) = last_of (y ∷ ys)

  abbrev pub drawdowns_of : List F → List F → List F
  drawdowns_of (e ∷ es) (p ∷ ps) = div (sub e p) p ∷ drawdowns_of es ps
  drawdowns_of _ _ = []

  module _ (numpy : Numpy F) where
    -- `_max_drawdown`
    unfoldable pub max_drawdown_of : List F → F
    max_drawdown_of curve = numpy.array_min (drawdowns_of curve (numpy.maximum_accumulate curve))

    abbrev pub no_trades : F → F → BacktestResult F
    no_trades net_return max_drawdown = record {
      net_return = net_return;
      max_drawdown = max_drawdown;
      win_rate = nought;
      trade_count = 0;
      average_holding_time = nought;
      fee_adjusted_expectancy = nought;
      slippage_adjusted_expectancy = nought;
    }

    abbrev pub summary_of : List (Trade F) → List F → F → F → F → F → BacktestResult F
    summary_of [] returns fee_rate slippage_rate net_return max_drawdown =
        no_trades net_return max_drawdown
    summary_of (t ∷ trades) returns fee_rate slippage_rate net_return max_drawdown =
        let expectancy = numpy.mean returns in
        record {
          net_return = net_return;
          max_drawdown = max_drawdown;
          win_rate = numpy.mean_of_flags (map (λ r. lt nought r) returns);
          trade_count = length (t ∷ trades);
          average_holding_time = numpy.mean (map holding_time (t ∷ trades));
          fee_adjusted_expectancy = sub expectancy (mul fee_rate (decimal 2 0));
          slippage_adjusted_expectancy = sub expectancy (mul slippage_rate (decimal 2 0));
        }

    -- `_summarize`, as the runner calls it
    unfoldable pub summarize : List (Trade F) → List F → F → F → Outcome (BacktestResult F)
    summarize trades curve fee_rate slippage_rate = do
      final ← last_of curve
      returns ← traverse gross_return trades
      ok (
          summary_of trades returns fee_rate slippage_rate (sub final (decimal 1 0))
            (max_drawdown_of curve))

    -- `portfolio_value` is the value of `Portfolio.from_signals` after each bar.
    module _ (portfolio_value : List F → List Bool → List Bool → F → F → List F) where
      unfoldable pub run_vectorbt_backtest :
          List F → List Bool → List Bool → F → F → Outcome (BacktestResult F)
      run_vectorbt_backtest prices entries exits fee_rate slippage_rate = do
        validate_signals prices entries exits fee_rate slippage_rate
        summarize (extract_trades prices entries exits)
            (portfolio_value prices entries exits fee_rate slippage_rate) fee_rate slippage_rate
