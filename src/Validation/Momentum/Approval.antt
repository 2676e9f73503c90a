-- ===== src/Validation/Momentum/Approval.antt =====
-- What an approval of the momentum validator stands for.
use crypto_research_agent.Common.{
  ℕ, zero, suc, ◌+◌, ◌≤◌, ◌<◌, ◌≡◌, refl, sym, ap, subst, ◌∙◌, Bool, true, false, not, ◌&&◌, ◌||◌,
  List, [], ◌∷◌, map, arith, String, is_empty, length, flags-empty_iff, not-eq-false, ok,
  validation_error, bind-ok, ok_injective, raise_if-ok, raise_if,
}
use crypto_research_agent.Common.Int.{pos}
use crypto_research_agent.Common.Float.{Float}
use crypto_research_agent.Common.Sorting.{length-sort_by}
use crypto_research_agent.Backtest.{Numpy, BacktestResult}
use crypto_research_agent.Validation.Momentum.{
  CandleBar, MomentumValidationResult, Signals, require_positive, has_one_value, momentum_signals,
  momentum_result, momentum_blocked_reasons, check_momentum_result, backtest_prices, first_bar,
  sorted_bars, validate_close_momentum,
}
use crypto_research_agent.Validation.Momentum.Counted.{trade_count-backtest_prices}

require_positive-same :
    (message : String) (n : ℕ) {m : ℕ} → require_positive message (pos n) ≡ ok m → n ≡ m
require_positive-same message zero h = cc
require_positive-same message (suc n) h = cc

require_positive-pos :
    (message : String) (n : ℕ) {m : ℕ} → require_positive message (pos n) ≡ ok m → 0 < m
require_positive-pos message zero h = cc
require_positive-pos message (suc n) {m = m} h =
    let same : suc n ≡ m = ok_injective h in omega arith

length-map {ℓ κ} :
    {A : Type ℓ} {B : Type κ} (f : A → B) (xs : List A) → length (map f xs) ≡ length xs
length-map f [] = refl
length-map f (x ∷ xs) = ap suc (length-map f xs)

module _ {F : Type 0} ⦃f : Float F⦄ where
  open f use {nought, le, is_finite}

  -- What an approved result for a history of so many bars has.
  pub record IsProven (bars lookback hold min_trades : ℕ) (r : MomentumValidationResult F)
      : Type 0 where
    pub counted : r.bar_count ≡ bars
    pub enough_bars : lookback + hold + 1 ≤ bars
    pub reported : r.approved ≡ true
    pub enough_trades : min_trades ≤ r.trade_count
    pub pays_fees : le r.fee_adjusted_expectancy nought ≡ false
    pub pays : le r.net_return nought ≡ false
    pub finite_return : is_finite r.net_return ≡ true
    pub no_reasons : is_empty r.blocked_reasons ≡ true

  momentum_result-IsProven :
      (symbol timeframe : String) (bar_count lookback hold min_trades : ℕ) (raw_returns : List F)
      (b : BacktestResult F)
      → (momentum_result symbol timeframe bar_count lookback hold min_trades raw_returns b).approved
        ≡ true
      → is_finite b.net_return ≡ true
      → IsProven bar_count lookback hold min_trades
          (momentum_result symbol timeframe bar_count lookback hold min_trades raw_returns b)
  unfolding momentum_result
  momentum_result-IsProven symbol timeframe bar_count lookback hold min_trades raw_returns b
        approved finite =
      let clear =
        (flags-empty_iff (momentum_blocked_reasons bar_count lookback hold min_trades b)).0
          approved in
      let bars = clear.0 in
      let trades = clear.1.0 in
      record {
        counted = refl;
        enough_bars = ground arith;
        reported = approved;
        enough_trades = ground arith;
        pays_fees = clear.1.1.0;
        pays = clear.1.1.1.0;
        finite_return = finite;
        no_reasons = approved;
      }

  check_momentum_result-finite :
      (r : MomentumValidationResult F) {s : MomentumValidationResult F}
      → check_momentum_result r ≡ ok s
      → (r ≡ s) × (is_finite r.net_return ≡ true)
  unfolding check_momentum_result
  check_momentum_result-finite r h =
      let finite =
        is_finite r.gross_expectancy
        && is_finite r.net_return
        && is_finite r.max_drawdown
        && is_finite r.fee_adjusted_expectancy
        && is_finite r.slippage_adjusted_expectancy in
      let (u, guard, last) =
        bind-ok (raise_if (not finite) (validation_error "MomentumValidationResult")) _ h in
      let accepted =
        not-eq-false finite
          (raise_if-ok (not finite) (validation_error "MomentumValidationResult") guard) in
      (ok_injective last, ground arith)

  module _ (numpy : Numpy F) (portfolio_value : List F → List Bool → List Bool → F → F → List F)
      {Time : Type 0} (earlier : Time → Time → Bool) where
    -- The trades of the result are the signals of the history in the order of time.
    abbrev pub IsCounted : List (CandleBar F Time) → ℕ → ℕ → MomentumValidationResult F → Type 0
    IsCounted bars lookback hold r =
        (s : Signals F) × (momentum_signals
            (map (λ bar. bar.close) (sorted_bars numpy portfolio_value earlier bars)) lookback hold
          ≡ ok s)
        × (r.trade_count ≡ length s.raw_returns)

    -- The last steps, on a history that is in order.
    approved_result :
        (ordered : List (CandleBar F Time)) (symbol timeframe : String) (l k min_trades : ℕ)
        (fee_rate slippage_rate : F) (signals : Signals F) (backtest : BacktestResult F)
        {r : MomentumValidationResult F}
        → 0 < l
        → 0 < k
        → momentum_signals (map (λ bar. bar.close) ordered) l k ≡ ok signals
        → backtest_prices numpy portfolio_value
            (map (λ bar. bar.close) ordered)
            signals
            fee_rate
            slippage_rate
          ≡ ok backtest
        → check_momentum_result (
            momentum_result symbol timeframe
              (length ordered)
              l
              k
              min_trades
              signals.raw_returns
              backtest)
          ≡ ok r
        → r.approved ≡ true
        → IsProven (length ordered) l k min_trades r × (r.trade_count ≡ length signals.raw_returns)
    unfolding momentum_result
    approved_result ordered symbol timeframe l k min_trades fee_rate slippage_rate signals backtest
          positive held found tested checked approved =
        let result =
          momentum_result symbol timeframe (length ordered) l k min_trades signals.raw_returns
            backtest in
        let (same, finite) = check_momentum_result-finite result checked in
        let proven : IsProven (length ordered) l k min_trades result =
          momentum_result-IsProven symbol timeframe (length ordered) l k min_trades
            signals.raw_returns backtest (ap (λ x. x.approved) same ∙ approved) finite in
        let needed : l + k + 1 ≤ length ordered = proven.enough_bars in
        let long : 2 ≤ length (map (λ (bar : CandleBar F Time). bar.close) ordered) =
          omega (arith, length-map (λ (bar : CandleBar F Time). bar.close) ordered) in
        let counted : result.trade_count ≡ length signals.raw_returns =
          trade_count-backtest_prices numpy portfolio_value (map (λ bar. bar.close) ordered) l k
            fee_rate slippage_rate held long found tested in
        (
          subst (IsProven (length ordered) l k min_trades) same proven,
          subst (λ x. x.trade_count ≡ length signals.raw_returns) same counted,
        )

    -- A momentum strategy is approved only on a history that is long enough for one trade, whose bars the
    -- result counts, with as many trades as are asked for, one for each signal of the history in the order
    -- of time, and with an expectancy after fees and a net return that are not at most zero; no reason to
    -- block it is left.
    pub validate_close_momentum-IsProven :
        (bars : List (CandleBar F Time)) (lookback hold min_trades : ℕ) (fee_rate slippage_rate : F)
        {r : MomentumValidationResult F}
        → validate_close_momentum numpy portfolio_value earlier bars
            (pos lookback)
            (pos hold)
            fee_rate
            slippage_rate
            (pos min_trades)
          ≡ ok r
        → r.approved ≡ true
        → IsProven (length bars) lookback hold min_trades r × IsCounted bars lookback hold r
    unfolding validate_close_momentum
    validate_close_momentum-IsProven bars lookback hold min_trades fee_rate slippage_rate {r = r} h
          approved =
        let (l, el, h) =
          bind-ok (require_positive "lookback_bars must be greater than 0" (pos lookback)) _ h in
        let (k, ek, h) =
          bind-ok (require_positive "hold_bars must be greater than 0" (pos hold)) _ h in
        let (_, _, h) =
          bind-ok (raise_if (not (is_finite fee_rate) || f.lt fee_rate nought) _) _ h in
        let (_, _, h) =
          bind-ok (raise_if (not (is_finite slippage_rate) || f.lt slippage_rate nought) _) _ h in
        let (_, _, h) = bind-ok (raise_if (is_empty bars) _) _ h in
        let (_, _, h) =
          bind-ok (raise_if (not (has_one_value (map (λ bar. bar.symbol) bars))) _) _ h in
        let (_, _, h) =
          bind-ok (raise_if (not (has_one_value (map (λ bar. bar.timeframe) bars))) _) _ h in
        let ordered = sorted_bars numpy portfolio_value earlier bars in
        let (signals, found, h) =
          bind-ok (momentum_signals (map (λ bar. bar.close) ordered) l k) _ h in
        let (backtest, tested, h) =
          bind-ok
            (backtest_prices numpy portfolio_value (map (λ bar. bar.close) ordered) signals fee_rate
              slippage_rate)
            _ h in
        let (first, _, h) = bind-ok (first_bar numpy portfolio_value ordered) _ h in
        let (proven, counted) =
          approved_result ordered first.symbol first.timeframe l k min_trades fee_rate slippage_rate
            signals backtest (require_positive-pos _ lookback el) (require_positive-pos _ hold ek)
            found tested h approved in
        let back_to : (P : ℕ → ℕ → Type 0) → P l k → P lookback hold = λ P p.
          subst (λ x. P x hold) (sym (require_positive-same _ lookback el))
            (subst (P l) (sym (require_positive-same _ hold ek)) p) in
        (
          subst (λ n. IsProven n lookback hold min_trades r)
              (length-sort_by (λ a b. earlier a.timestamp b.timestamp) bars)
              (back_to (λ x y. IsProven (length ordered) x y min_trades r) proven),
          (
            signals,
            back_to (λ x y. momentum_signals (map (λ bar. bar.close) ordered) x y ≡ ok signals)
                found,
            counted,
          ),
        )
