-- ===== src/Execution/Paper/RoundTrip.antt =====
-- `paper_round_trip_to_backtest_result` of src/crypto_alpha_agent/execution/paper.py: an entry and an
-- exit as the metrics of a backtest with one trade.
use crypto_research_agent.Common.{
  ◌≡◌, true, false, not, ◌||◌, if◌then◌else◌, arith, ◌↔◌, ◌=?◌, string_eq, Outcome, ok, value_error,
  is_ok, ◌>>=◌, ◌>>◌, raise_if,
}
use crypto_research_agent.Common.Float.{Float}
use crypto_research_agent.Common.Division.{quotient_of}
use crypto_research_agent.Execution.Paper.{buy, sell, side_eq, PaperFill}
use crypto_research_agent.Backtest.{BacktestResult}

-- src/crypto_alpha_agent/backtest/vectorbt_runner.py
module _ {F : Type 0} ⦃f : Float F⦄ where
  open f use {nought, decimal, lt, same, add, sub, div}

  unfoldable pub paper_round_trip_to_backtest_result :
      PaperFill F → PaperFill F → F → Outcome (BacktestResult F)
  paper_round_trip_to_backtest_result entry exit holding_time = do
    raise_if (not (entry.side =? buy) || not (exit.side =? sell))
        (value_error "paper round trip requires buy entry and sell exit fills")
    raise_if (not (entry.symbol =? exit.symbol))
        (value_error "paper round trip fills must use the same symbol")
    raise_if (not (same entry.quantity exit.quantity))
        (value_error "paper round trip fills must use the same quantity")
    raise_if (lt holding_time nought) (value_error "holding_time must be non-negative")
    entry_fee_rate ← quotient_of entry.fee entry.gross_value
    exit_fee_rate ← quotient_of exit.fee exit.gross_value
    gross_return ←
        quotient_of (sub exit.reference_price entry.reference_price) entry.reference_price
    ratio ← quotient_of (sub exit.gross_value exit.fee) (add entry.gross_value entry.fee)
    ok (record {
      net_return = sub ratio (decimal 1 0);
      max_drawdown = nought;
      win_rate = if lt nought gross_return then decimal 1 0 else nought;
      trade_count = 1;
      average_holding_time = holding_time;
      fee_adjusted_expectancy = sub (sub gross_return entry_fee_rate) exit_fee_rate;
      slippage_adjusted_expectancy = sub (sub gross_return entry.slippage_rate) exit.slippage_rate;
    })

  -- What makes two fills a round trip.
  pub record IsRoundTrip (entry exit : PaperFill F) (holding_time : F) : Type 0 where
    pub entered : entry.side ≡ buy
    pub exited : exit.side ≡ sell
    pub same_symbol : entry.symbol ≡ exit.symbol
    pub same_quantity : same entry.quantity exit.quantity ≡ true
    pub holding : lt holding_time nought ≡ false
    pub entry_value : same entry.gross_value nought ≡ false
    pub exit_value : same exit.gross_value nought ≡ false
    pub entry_price : same entry.reference_price nought ≡ false
    pub cost : same (add entry.gross_value entry.fee) nought ≡ false

  -- A result is made exactly of a buy and a later sale of the same quantity of one symbol, where no
  -- divisor is zero.
  pub IsRoundTrip-ok_iff :
      (entry exit : PaperFill F) (holding_time : F)
      → (is_ok (paper_round_trip_to_backtest_result entry exit holding_time) ≡ true)
        ↔ IsRoundTrip entry exit holding_time
  unfolding paper_round_trip_to_backtest_result quotient_of
  IsRoundTrip-ok_iff entry exit holding_time = ground (
    arith,
    side_eq.beq_iff entry.side buy,
    side_eq.beq_iff exit.side sell,
    string_eq.beq_iff entry.symbol exit.symbol,
  )
