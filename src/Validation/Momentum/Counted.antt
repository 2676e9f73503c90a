-- ===== src/Validation/Momentum/Counted.antt =====
-- The trades that a backtest of momentum signals counts are the signals.
use crypto_research_agent.Common.{
  ℕ, suc, ◌≤◌, ◌<◌, ◌≡◌, refl, sym, ap, ◌∙◌, Bool, false, List, [], ◌∷◌, arith, ltb, length,
  Outcome, ok, traverse, bind-ok, ok_injective,
}
use crypto_research_agent.Common.Float.{Float}
use crypto_research_agent.Backtest.{
  Numpy, BacktestResult, Trade, gross_return, extract_trades, last_of, summary_of, summarize,
  validate_signals, run_vectorbt_backtest,
}
use crypto_research_agent.Validation.Momentum.{Signals, momentum_signals, backtest_prices}
use crypto_research_agent.Validation.Momentum.Trades.{extract_trades-momentum_signals}

length-traverse {ℓ κ} :
    {A : Type ℓ} {B : Type κ} (f : A → Outcome B) (xs : List A) {ys : List B}
    → traverse f xs ≡ ok ys
    → length xs ≡ length ys
length-traverse f [] h = ap length (ok_injective h)
length-traverse f (x ∷ xs) h =
    let (y, ey, h) = bind-ok (f x) _ h in
    let (rest, er, h) = bind-ok (traverse f xs) _ h in
    ap suc (length-traverse f xs er) ∙ ap length (ok_injective h)

module _ {F : Type 0} ⦃f : Float F⦄ (numpy : Numpy F) where
  trade_count-summary_of :
      (trades : List (Trade F)) (returns : List F)
      (fee_rate slippage_rate net_return max_drawdown : F)
      → (summary_of numpy trades returns fee_rate slippage_rate net_return max_drawdown).trade_count
        ≡ length trades
  trade_count-summary_of [] returns fee_rate slippage_rate net_return max_drawdown = refl
  trade_count-summary_of (t ∷ trades) returns fee_rate slippage_rate net_return max_drawdown = refl

  trade_count-summarize :
      (trades : List (Trade F)) (curve : List F) (fee_rate slippage_rate : F) {b : BacktestResult F}
      → summarize numpy trades curve fee_rate slippage_rate ≡ ok b
      → b.trade_count ≡ length trades
  unfolding summarize
  trade_count-summarize trades curve fee_rate slippage_rate h =
      let (final, _, h) = bind-ok (last_of curve) _ h in
      let (returns, _, h) = bind-ok (traverse gross_return trades) _ h in
      sym (ap (λ x. x.trade_count) (ok_injective h))
      ∙ trade_count-summary_of trades returns fee_rate slippage_rate _ _

  module _ (portfolio_value : List F → List Bool → List Bool → F → F → List F) where
    pub trade_count-backtest_prices :
        (prices : List F) (lookback hold : ℕ) (fee_rate slippage_rate : F) {s : Signals F}
        {b : BacktestResult F}
        → 0 < hold
        → 2 ≤ length prices
        → momentum_signals prices lookback hold ≡ ok s
        → backtest_prices numpy portfolio_value prices s fee_rate slippage_rate ≡ ok b
        → b.trade_count ≡ length s.raw_returns
    unfolding backtest_prices run_vectorbt_backtest
    trade_count-backtest_prices prices lookback hold fee_rate slippage_rate {s = s} held long found
          tested =
        let two : ltb (length prices) 2 ≡ false = ground arith in
        let (u, _, summed) =
          bind-ok (validate_signals prices s.entries s.exits fee_rate slippage_rate) _
            (rw two at tested) in
        trade_count-summarize (extract_trades prices s.entries s.exits) _ fee_rate slippage_rate
          summed
        ∙ length-traverse gross_return (extract_trades prices s.entries s.exits)
            (extract_trades-momentum_signals prices hold lookback held found)
