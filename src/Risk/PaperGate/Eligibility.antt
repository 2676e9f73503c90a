-- ===== src/Risk/PaperGate/Eligibility.antt =====
-- When a strategy may be traded on paper, stated on the evidence that was handed over.
use crypto_research_agent.Common.{
  ◌≤◌, ◌≡◌, String, Bool, true, false, not, ◌&&◌, Option, none, some, [], ◌∷◌, ◌++◌, map, arith,
  ◌↔◌, inl, inr, is_none, is_empty, keep, is_blank, strip, flags, ◌=?◌, string_eq, ok, bind-ok, any,
  Bool-cases,
}
use crypto_research_agent.Common.Dedupe.{
  dedupe, is_nonblank, dedupe-is_empty, any-dedupe, any-append, any-keep_nonblank,
  any-keep_stripped,
}
use crypto_research_agent.Common.Float.{Float, IsOrdered, IsFinite, ◌≺◌, lt-eq-not-le}
use crypto_research_agent.Risk.PaperGate.{
  PaperEligibilityPolicy, PaperEligibilityDecision, ValidationEvidence, PaperEvidence,
  CharterGuardDecision, is_denied, is_failing, is_finite_option, normalize_drawdown, is_mismatched,
  is_at_most_floor, is_above_limit, normalize_status, coerce_validation, check_paper,
  coerce_paper_evidence, paper_failure_reasons_of, historical_validation_is_blocked,
  paper_has_failed, eligibility_reasons, evaluate_paper_eligibility,
}

module _ {F : Type 0} ⦃f : Float F⦄ where
  open f use {nought, is_finite, le, lt, abs}

  -- The paper evidence does not speak against the strategy.
  pub record IsClean (family : String) (p : PaperEvidence F) : Type 0 where
    pub no_failure : p.failed_count ≡ 0
    pub no_reason : any is_nonblank p.failure_reasons ≡ false
    pub profit : nought ≺ p.net_pnl_usd
    pub same_family : p.strategy_family ≡ family

  abbrev pub IsCleanOrNone : String → Option (PaperEvidence F) → Type 0
  IsCleanOrNone family none = Unit
  IsCleanOrNone family (some p) = IsClean family p

  -- a figure that is given and is above the floor, or whose size is within the limit
  abbrev pub is_known_above : F → Option F → Bool
  is_known_above floor none = false
  is_known_above floor (some x) = lt floor x

  abbrev pub is_known_within : F → Option F → Bool
  is_known_within limit none = false
  is_known_within limit (some x) = le (abs x) limit

  -- What the gate asks for.
  pub record IsAllowed (policy : PaperEligibilityPolicy F) (v : ValidationEvidence F)
      (charter : CharterGuardDecision) (paper : Option (PaperEvidence F)) : Type 0 where
    pub not_denied : is_denied v.approved ≡ false
    pub not_failing : is_failing (normalize_status v.status) ≡ false
    pub not_blocked : any (λ r. not (is_blank (strip r))) v.blocked_reasons ≡ false
    pub trades : policy.min_historical_trades ≤ v.trade_count
    pub expectancy :
        is_known_above policy.min_fee_adjusted_expectancy v.fee_adjusted_expectancy ≡ true
    pub drawdown : is_known_within policy.max_drawdown v.max_drawdown ≡ true
    pub chartered : charter.approved ≡ true
    pub clean : IsCleanOrNone v.strategy_family paper

  paper_reasons_empty :
      (p : PaperEvidence F)
      → is_empty (paper_failure_reasons_of (some p))
        ≡ (not (any is_nonblank p.failure_reasons) && not (le p.net_pnl_usd nought))
  unfolding paper_failure_reasons_of
  paper_reasons_empty p = elim (Bool-cases (le p.net_pnl_usd nought)) [
    | inl loss ↦ rw loss (
        rw
          (
            dedupe-is_empty (dedupe p.failure_reasons ++ "negative_net_pnl" ∷ []),
            any-append is_nonblank (dedupe p.failure_reasons) ("negative_net_pnl" ∷ []),
          )
          (ground arith))
    | inr gain ↦ rw gain (
        rw (dedupe-is_empty (dedupe p.failure_reasons), any-dedupe p.failure_reasons)
          (ground arith))
  ]

  coerced_figures :
      (v w : ValidationEvidence F)
      → coerce_validation v ≡ ok w
      → (w.trade_count ≡ v.trade_count) × (w.strategy_family ≡ v.strategy_family)
  unfolding coerce_validation
  coerced_figures v w e = ground arith

  eligibility_iff :
      (policy : PaperEligibilityPolicy F) (v : ValidationEvidence F)
      (charter : CharterGuardDecision) (paper : Option (PaperEvidence F))
      → (is_empty (eligibility_reasons policy v charter paper) ≡ true) ↔ (
          (historical_validation_is_blocked v ≡ false)
          × (policy.min_historical_trades ≤ v.trade_count)
          × (is_at_most_floor policy.min_fee_adjusted_expectancy v.fee_adjusted_expectancy ≡ false)
          × (is_none v.max_drawdown ≡ false)
          × (is_above_limit policy.max_drawdown v.max_drawdown ≡ false)
          × (charter.approved ≡ true)
          × (paper_has_failed paper ≡ false)
          × (is_mismatched v.strategy_family paper ≡ false))
  unfolding eligibility_reasons flags
  eligibility_iff policy v charter paper = ground arith

  module _ (laws : IsOrdered F) where
    paper-IsClean_iff :
        (p q : PaperEvidence F) (family : String)
        → check_paper p ≡ ok q
        → ((paper_has_failed (some q) ≡ false) × (not (q.strategy_family =? family) ≡ false))
          ↔ IsClean family p
    unfolding check_paper paper_has_failed
    paper-IsClean_iff p q family e = ground (
      arith,
      paper_reasons_empty q,
      any-dedupe (keep is_nonblank p.failure_reasons),
      any-keep_nonblank p.failure_reasons,
      lt-eq-not-le laws nought p.net_pnl_usd laws.nought_finite,
      string_eq.beq_iff p.strategy_family family,
    )

    coerced_clean_iff :
        (paper paper' : Option (PaperEvidence F)) (family : String)
        → coerce_paper_evidence paper ≡ ok paper'
        → ((paper_has_failed paper' ≡ false) × (is_mismatched family paper' ≡ false))
          ↔ IsCleanOrNone family paper
    coerced_clean_iff none paper' family e = unfold paper_has_failed in ground arith
    coerced_clean_iff (some p) paper' family e =
        let (q, checked, made) = bind-ok (check_paper p) _ e in
        let clean = paper-IsClean_iff p q family checked in ground (arith, clean)

    blocked_iff :
        (v w : ValidationEvidence F)
        → coerce_validation v ≡ ok w
        → (historical_validation_is_blocked w ≡ false) ↔ (
            (is_denied v.approved ≡ false)
            × (is_failing (normalize_status v.status) ≡ false)
            × (any (λ r. not (is_blank (strip r))) v.blocked_reasons ≡ false))
    unfolding coerce_validation historical_validation_is_blocked
    blocked_iff v w e = ground (
      arith,
      dedupe-is_empty (map strip (keep (λ r. not (is_blank (strip r))) v.blocked_reasons)),
      any-keep_stripped v.blocked_reasons,
    )

    floor_iff :
        (floor : F) (o : Option F)
        → IsFinite floor
        → is_finite_option o ≡ true
        → (is_at_most_floor floor o ≡ false) ↔ (is_known_above floor o ≡ true)
    floor_iff floor none p q = ground arith
    floor_iff floor (some x) p q = ground (arith, lt-eq-not-le laws floor x p q)

    limit_iff :
        (limit : F) (o : Option F)
        → IsFinite limit
        → is_finite_option o ≡ true
        → ((is_none (normalize_drawdown o) ≡ false)
            × (is_above_limit limit (normalize_drawdown o) ≡ false))
          ↔ (is_known_within limit o ≡ true)
    limit_iff limit none p q = ground arith
    limit_iff limit (some x) p q =
        ground (arith, lt-eq-not-le laws limit (abs x) p (laws.abs_finite x q))

    figures_iff :
        (policy : PaperEligibilityPolicy F) (v w : ValidationEvidence F)
        → IsFinite policy.min_fee_adjusted_expectancy
        → IsFinite policy.max_drawdown
        → coerce_validation v ≡ ok w
        → ((is_at_most_floor policy.min_fee_adjusted_expectancy w.fee_adjusted_expectancy ≡ false)
            × (is_none w.max_drawdown ≡ false)
            × (is_above_limit policy.max_drawdown w.max_drawdown ≡ false))
          ↔ ((is_known_above policy.min_fee_adjusted_expectancy v.fee_adjusted_expectancy ≡ true)
              × (is_known_within policy.max_drawdown v.max_drawdown ≡ true))
    unfolding coerce_validation
    figures_iff policy v w pf pd e = ground (
      arith,
      floor_iff policy.min_fee_adjusted_expectancy v.fee_adjusted_expectancy pf,
      limit_iff policy.max_drawdown v.max_drawdown pd,
    )

    -- A decision allows paper trading exactly when the validation passed with enough trades, an
    -- expectancy above the floor and a drawdown within the limit, the charter approves, and the paper
    -- evidence, if there is any, is clean and of the same family; then, and only then, it names no
    -- reason.
    pub evaluate_paper_eligibility-allowed_iff :
        (policy : PaperEligibilityPolicy F) (v : ValidationEvidence F)
        (charter : CharterGuardDecision) (paper : Option (PaperEvidence F))
        {d : PaperEligibilityDecision F}
        → IsFinite policy.min_fee_adjusted_expectancy
        → IsFinite policy.max_drawdown
        → evaluate_paper_eligibility v charter paper policy ≡ ok d
        → ((d.allowed ≡ true) ↔ IsAllowed policy v charter paper)
          × ((d.allowed ≡ true) ↔ (d.reason_codes ≡ []))
    unfolding evaluate_paper_eligibility
    evaluate_paper_eligibility-allowed_iff policy v charter paper {d} pf pd e =
        let (w, coerced, e1) = bind-ok (coerce_validation v) _ e in
        let (paper', cleaned, e2) = bind-ok (coerce_paper_evidence paper) _ e1 in
        let (trades, family) = coerced_figures v w coerced in
        ground (
          arith,
          eligibility_iff policy w charter paper',
          figures_iff policy v w pf pd coerced,
          blocked_iff v w coerced,
          coerced_clean_iff paper paper' v.strategy_family cleaned,
        )
