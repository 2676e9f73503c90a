-- ===== src/Execution/Cost/Estimate/Checked.antt =====
-- What the checks of an estimate keep, and what a filled and a refused one say.
use crypto_research_agent.Common.{raise_if, not, ok_injective, lower, validation_error}
use crypto_research_agent.Common.{
  ◌≡◌, ◌≢◌, refl, sym, ◌∙◌, inl, inr, String, true, false, Option, List, [], ◌∷◌, arith, ◌⊎◌,
  is_empty, strip, contains, flags-empty_iff, ok, bind-ok,
}
use crypto_research_agent.Common.Float.{Float, ◌≼◌, ◌≺◌}
use crypto_research_agent.Common.Dedupe.{dedupe, dedupe_from}
use crypto_research_agent.Execution.Cost.{
  strip_nonblank, FillStatus, full, partial, missed, blocked, cost_mode_eq, tradeable, untradeable,
  SymbolMarketConstraints, ExchangeFeeSchedule, ExecutionCostAssumptions, ExecutionTradeSpec,
  ExecutionCostEstimate, Fill, Sizing, StaleSignalStatus, fresh, stale, not_evaluated,
}
use crypto_research_agent.Execution.Cost.Estimate.{
  is_stale, dedupe_reasons, accepts_estimate, check_estimate, sizing_reasons, blocked_estimate,
  filled_estimate, blocked_if_full,
}

nothing_left : dedupe_reasons [] ≡ ok []
unfolding dedupe_reasons dedupe dedupe_from
nothing_left = refl

one_left : dedupe_reasons ("pre_cost_only_profitable" ∷ []) ≡ ok ("pre_cost_only_profitable" ∷ [])
unfolding dedupe_reasons strip_nonblank dedupe dedupe_from strip contains
one_left = refl

untradeable≢tradeable : untradeable ≢ tradeable
untradeable≢tradeable h = cc

partial≢full : partial ≢ full
partial≢full h = cc

not_stale : (age : StaleSignalStatus) → is_stale age ≡ false → age ≢ stale
not_stale fresh h = λ e. cc
not_stale stale h = λ e. absurd (let given : true ≡ false = h in cc)
not_stale not_evaluated h = λ e. cc

module _ {F : Type 0} ⦃f : Float F⦄ where
  open f use {nought, le, lt, add, sub, mul}

  -- A trade that can be made under the constraints of its symbol: the limit allows the least notional
  -- and the least quantity, the signal is not stale, and what is filled is of a size that can be traded.
  -- Its net result is what is left of the gross one after both fees and the slippage, and costs do not eat
  -- up a gross profit.
  pub record IsTradeable (c : SymbolMarketConstraints F) (a : ExecutionCostAssumptions F)
      (e : ExecutionCostEstimate F) : Type 0 where
    pub no_reason : e.failure_reasons ≡ []
    pub funded : lt a.max_notional_usd c.min_notional_usd ≡ false
    pub affordable : lt a.max_notional_usd (mul c.min_quantity e.entry_price) ≡ false
    pub current : e.stale_signal_status ≢ stale
    pub filled : (e.fill_status ≡ full) ⊎ (e.fill_status ≡ partial)
    pub whole :
        e.fill_status ≡ full
        → (le e.quantity nought ≡ false)
          × (lt e.quantity c.min_quantity ≡ false)
          × (lt a.max_notional_usd e.effective_notional_usd ≡ false)
          × (nought ≺ e.effective_notional_usd
              → lt e.effective_notional_usd c.min_notional_usd ≡ false)
    pub part :
        e.fill_status ≡ partial
        → (nought ≺ e.quantity) × (c.min_notional_usd ≼ e.effective_notional_usd)
    pub fees : e.fees_usd ≡ add e.entry_fee_usd e.exit_fee_usd
    pub net : e.net_pnl_usd ≡ sub (sub e.gross_pnl_usd e.fees_usd) e.slippage_usd
    pub worth_it : nought ≺ e.gross_pnl_usd → le e.net_pnl_usd nought ≡ false

  -- A fill that needs no reason: a full one of the size asked for, or a part that is large enough.
  abbrev pub IsFilled : SymbolMarketConstraints F → Sizing F → Fill F → Type 0
  IsFilled c s fill =
      ((fill.status ≡ full) × (fill.quantity ≡ s.quantity) × (fill.notional ≡ s.notional))
      ⊎ ((fill.status ≡ partial) × (nought ≺ fill.quantity) × (c.min_notional_usd ≼ fill.notional))

  -- A trade that is refused before it is filled moves no money.
  pub record IsFlat (e : ExecutionCostEstimate F) : Type 0 where
    pub quantity : e.quantity ≡ nought
    pub notional : e.effective_notional_usd ≡ nought
    pub net : e.net_pnl_usd ≡ nought
    pub unfilled : (e.fill_status ≡ missed) ⊎ (e.fill_status ≡ blocked) ⊎ (e.fill_status ≡ partial)

  -- A trade that is refused since its costs eat up a gross profit.
  pub record IsEatenUp (e : ExecutionCostEstimate F) : Type 0 where
    pub reason : e.failure_reasons ≡ "pre_cost_only_profitable" ∷ []
    pub gross : nought ≺ e.gross_pnl_usd
    pub net : e.net_pnl_usd ≼ nought

  abbrev pub checked :
      ExecutionCostEstimate F → String → String → String → List String → ExecutionCostEstimate F
  checked e venue symbol fee_model_id reasons = record e {
    venue = lower venue;
    symbol = symbol;
    fee_model_id = fee_model_id;
    failure_reasons = reasons;
  }

  -- What an estimate that was accepted has of the one that was checked.
  pub record IsChecked (e d : ExecutionCostEstimate F) : Type 0 where
    pub venue : String
    pub symbol : String
    pub fee_model_id : String
    pub reasons : List String
    pub kept : dedupe_reasons e.failure_reasons ≡ ok reasons
    pub same : checked e venue symbol fee_model_id reasons ≡ d

  pub check_estimate-IsChecked :
      (e : ExecutionCostEstimate F) {d : ExecutionCostEstimate F}
      → check_estimate e ≡ ok d
      → IsChecked e d
  unfolding check_estimate
  check_estimate-IsChecked e h =
      let (v, _, h) = bind-ok (strip_nonblank e.venue) _ h in
      let (s, _, h) = bind-ok (strip_nonblank e.symbol) _ h in
      let (m, _, h) = bind-ok (strip_nonblank e.fee_model_id) _ h in
      let (_, _, h) =
        bind-ok (raise_if (not (accepts_estimate e)) (validation_error "ExecutionCostEstimate")) _
          h in
      let (rs, kept, h) = bind-ok (dedupe_reasons e.failure_reasons) _ h in
      record {
        venue = v;
        symbol = s;
        fee_model_id = m;
        reasons = rs;
        kept = kept;
        same = ok_injective h;
      }

  -- What the sizes are when none of the reasons before the fill is given.
  record IsSized (c : SymbolMarketConstraints F) (a : ExecutionCostAssumptions F) (s : Sizing F)
      (age : StaleSignalStatus) : Type 0 where
    funded : lt a.max_notional_usd c.min_notional_usd ≡ false
    affordable : lt a.max_notional_usd (mul c.min_quantity s.entry_price) ≡ false
    some_quantity : le s.quantity nought ≡ false
    enough_quantity : lt s.quantity c.min_quantity ≡ false
    within : lt a.max_notional_usd s.notional ≡ false
    enough : nought ≺ s.notional → lt s.notional c.min_notional_usd ≡ false
    current : age ≢ stale

  sizing_reasons-IsSized :
      (c : SymbolMarketConstraints F) (a : ExecutionCostAssumptions F) (s : Sizing F)
      (age : StaleSignalStatus)
      → is_empty (sizing_reasons c a s age) ≡ true
      → IsSized c a s age
  unfolding sizing_reasons
  sizing_reasons-IsSized c a s age h =
      let (c0, (c1, (c2, (c3, (c4, (c5, _)))))) = (flags-empty_iff _).0 h in
      record {
        funded = c0;
        affordable = c1;
        some_quantity = ground arith;
        enough_quantity = ground arith;
        within = c3;
        enough = λ positive. ground arith;
        current = not_stale age c5;
      }

  module _ {Time : Type 0} (trade : ExecutionTradeSpec F Time) (a : ExecutionCostAssumptions F)
      (schedule : ExchangeFeeSchedule F) (s : Sizing F) (age : Option F × StaleSignalStatus)
      (v y m : String) (rs : List String) where
    pub filled-IsTradeable :
        (c : SymbolMarketConstraints F) (fill : Fill F)
        → is_empty (sizing_reasons c a s age.1) ≡ true
        → IsFilled c s fill
        → (filled_estimate trade a schedule s age fill).status ≡ tradeable
        → dedupe_reasons (filled_estimate trade a schedule s age fill).failure_reasons ≡ ok rs
        → IsTradeable c a (checked (filled_estimate trade a schedule s age fill) v y m rs)
    unfolding filled_estimate
    filled-IsTradeable c fill none_given sort h kept =
        let sized = sizing_reasons-IsSized c a s age.1 none_given in
        record {
          no_reason = ground (arith, nothing_left);
          funded = sized.funded;
          affordable = sized.affordable;
          current = sized.current;
          filled = ground arith;
          whole = λ all. elim sort [
            | inl (_, q, n) ↦
                rw (q, n) (sized.some_quantity, sized.enough_quantity, sized.within, sized.enough)
            | inr (rest, _, _) ↦ absurd (partial≢full (sym rest ∙ all))
          ];
          part = λ rest. elim sort [
            | inl (all, _, _) ↦ absurd (partial≢full (sym rest ∙ all))
            | inr (_, q, n) ↦ (q, n)
          ];
          fees = refl;
          net = refl;
          worth_it = ground arith;
        }

    pub filled-IsEatenUp :
        (fill : Fill F)
        → (filled_estimate trade a schedule s age fill).status ≡ untradeable
        → dedupe_reasons (filled_estimate trade a schedule s age fill).failure_reasons ≡ ok rs
        → IsEatenUp (checked (filled_estimate trade a schedule s age fill) v y m rs)
    unfolding filled_estimate
    filled-IsEatenUp fill h kept = record {
      reason = ground (arith, one_left);
      gross = ground arith;
      net = ground arith;
    }

    pub blocked-IsFlat :
        (status : FillStatus) (reasons : List String)
        → IsFlat (
            checked
              (blocked_estimate trade a schedule s age (blocked_if_full status) reasons)
              v
              y
              m
              rs)
    unfolding blocked_estimate
    blocked-IsFlat status reasons = record {
      quantity = refl;
      notional = refl;
      net = refl;
      unfilled = ground arith;
    }

    pub blocked_never_tradeable :
        (c : SymbolMarketConstraints F) (status : FillStatus) (reasons : List String)
        (e : ExecutionCostEstimate F)
        → (blocked_estimate trade a schedule s age status reasons).status ≡ tradeable
        → IsTradeable c a e
    unfolding blocked_estimate
    blocked_never_tradeable c status reasons e h = absurd (untradeable≢tradeable h)
