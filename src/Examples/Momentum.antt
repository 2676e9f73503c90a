-- ===== src/Examples/Momentum.antt =====
-- The momentum validator at concrete inputs.
use crypto_research_agent.Common.{
  ℕ, suc, ◌≡◌, refl, Bool, true, false, List, [], ◌∷◌, ok, traverse, arith, ltb, get_or,
}
use crypto_research_agent.Common.Int.{ℤ, pos}
use crypto_research_agent.Common.Float.Fixed.{fixed_float}
use crypto_research_agent.Common.{flags}
use crypto_research_agent.Common.Division.{quotient_of}
use crypto_research_agent.Backtest.{
  Numpy, gross_return, extract_trades, run_vectorbt_backtest, validate_signals, summarize,
  extract_from, max_drawdown_of,
}
use crypto_research_agent.Validation.Momentum.{
  CandleBar, MomentumValidationResult, Signals, momentum_signals, signals_from,
  validate_close_momentum, book_signal, raw_return, backtest_prices, check_momentum_result,
  momentum_result,
}
use crypto_research_agent.Validation.Momentum.Trades.{extract_trades-momentum_signals}
use crypto_research_agent.Validation.Momentum.Loop.{momentum_signals_total}
use crypto_research_agent.Validation.Momentum.Approval.{
  IsProven, IsCounted, validate_close_momentum-IsProven,
}
use crypto_research_agent.Validation.Momentum.{book_signal}
use crypto_research_agent.Validation.Momentum.{raw_return, is_rising}
use crypto_research_agent.Common.Division.{quotient_of}

abbrev prices : List ℤ
prices = pos 1000000 ∷ pos 1100000 ∷ pos 1210000 ∷ pos 1000000 ∷ pos 1200000 ∷ pos 1320000 ∷ []

abbrev signals : Signals ℤ
signals = record {
  entries = false ∷ true ∷ false ∷ false ∷ true ∷ false ∷ [];
  exits = false ∷ false ∷ true ∷ false ∷ false ∷ true ∷ [];
  raw_returns = pos 1000 ∷ pos 1000 ∷ [];
}

signals_are_found : momentum_signals prices 1 1 ≡ ok signals
unfolding momentum_signals signals_from fixed_float book_signal raw_return is_rising quotient_of
signals_are_found = refl

extract_trades-momentum_signals_example :
    traverse gross_return (extract_trades prices signals.entries signals.exits)
    ≡ ok (pos 1000 ∷ pos 1000 ∷ [])
extract_trades-momentum_signals_example =
    extract_trades-momentum_signals prices 1 1 (omega arith) signals_are_found

momentum_signals_total_example : (s : Signals ℤ) × (momentum_signals prices 1 1 ≡ ok s)
unfolding fixed_float
momentum_signals_total_example =
    momentum_signals_total prices (refl, (refl, (refl, (refl, (refl, (refl, tt)))))) 1 1

abbrev numpy : Numpy ℤ
numpy = record {
  mean = λ xs. get_or xs 0 (pos 0);
  mean_of_flags = λ bs. pos 10000;
  maximum_accumulate = λ xs. xs;
  array_min = λ xs. get_or xs 0 (pos 0);
}

abbrev portfolio_value : List ℤ → List Bool → List Bool → ℤ → ℤ → List ℤ
portfolio_value _ _ _ _ _ = pos 10000 ∷ pos 12000 ∷ []

abbrev bars_from : ℕ → List ℤ → List (CandleBar ℤ ℕ)
bars_from time [] = []
bars_from time (p ∷ ps) =
    record { symbol = "BTC"; timestamp = time; timeframe = "1h"; close = p }
    ∷ bars_from (suc time) ps

abbrev approval : MomentumValidationResult ℤ
approval = record {
  strategy_family = "close_momentum";
  symbol = "BTC";
  timeframe = "1h";
  bar_count = 6;
  trade_count = 2;
  gross_expectancy = pos 1000;
  net_return = pos 2000;
  max_drawdown = pos 0;
  fee_adjusted_expectancy = pos 980;
  slippage_adjusted_expectancy = pos 990;
  approved = true;
  blocked_reasons = [];
}

bars_are_approved :
    validate_close_momentum numpy portfolio_value ltb
      (bars_from 0 prices)
      (pos 1)
      (pos 1)
      (pos 10)
      (pos 5)
      (pos 2)
    ≡ ok approval
unfolding validate_close_momentum fixed_float momentum_signals signals_from book_signal raw_return
    is_rising quotient_of backtest_prices run_vectorbt_backtest validate_signals summarize
    extract_trades extract_from gross_return check_momentum_result momentum_result max_drawdown_of
    flags
bars_are_approved = refl

validate_close_momentum-IsProven_example :
    IsProven 6 1 1 2 approval
    × IsCounted numpy portfolio_value ltb (bars_from 0 prices) 1 1 approval
validate_close_momentum-IsProven_example =
    validate_close_momentum-IsProven numpy portfolio_value ltb (bars_from 0 prices) 1 1 2 (pos 10)
      (pos 5) bars_are_approved refl
