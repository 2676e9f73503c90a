-- ===== src/Risk/PaperGate.antt =====
-- src/crypto_alpha_agent/risk/paper_gate.py: whether a validated strategy may be traded on paper. The
-- evidence is that of the models, whose fields are normalised first; the charter's decision is the one
-- that the caller hands over.
pub mod Eligibility
use crypto_research_agent.Common.{
  ℕ, String, Bool, true, false, not, ◌&&◌, ◌||◌, Option, none, some, List, [], ◌∷◌, ◌++◌, map, ltb,
  if◌then◌else◌, is_none, is_empty, keep, is_blank, strip, lower, flags, contains, ◌=?◌, string_eq,
  Outcome, ok, err, validation_error, ◌>>=◌, ◌>>◌, raise_if,
}
use crypto_research_agent.Common.Dedupe.{dedupe}
use crypto_research_agent.Common.Float.{Float, is_nonneg}

pub data PaperEligibilityReasonCode : Type 0 where
  historical_validation_blocked insufficient_historical_trades : PaperEligibilityReasonCode
  non_positive_fee_adjusted_expectancy drawdown_unbounded : PaperEligibilityReasonCode
  drawdown_above_limit charter_violation paper_evidence_failed : PaperEligibilityReasonCode
  paper_evidence_strategy_mismatch : PaperEligibilityReasonCode

pub record PaperEligibilityPolicy (F : Type 0) : Type 0 where
  pub min_historical_trades : ℕ
  pub min_fee_adjusted_expectancy : F
  pub max_drawdown : F

pub record PaperEligibilityDecision (F : Type 0) : Type 0 where
  pub allowed : Bool
  pub reason_codes : List PaperEligibilityReasonCode
  pub historical_trade_count : ℕ
  pub fee_adjusted_expectancy : Option F
  pub max_drawdown : Option F
  pub charter_reason_codes : List String
  pub paper_failure_reasons : List String
  pub validation_blocked_reasons : List String

pub record ValidationEvidence (F : Type 0) : Type 0 where
  pub strategy_family : String
  pub status : Option String
  pub approved : Option Bool
  pub blocked_reasons : List String
  pub trade_count : ℕ
  pub fee_adjusted_expectancy : Option F
  pub max_drawdown : Option F

pub record PaperEvidence (F : Type 0) : Type 0 where
  pub strategy_family : String
  pub failed_count : ℕ
  pub net_pnl_usd : F
  pub failure_reasons : List String

pub record CharterGuardDecision : Type 0 where
  pub approved : Bool
  pub reason_codes : List String

abbrev pub passing_validation_statuses : List String
passing_validation_statuses = "passed" ∷ "pass" ∷ "approved" ∷ []

abbrev pub normalize_status : Option String → Option String
normalize_status none = none
normalize_status (some status) = some (lower (strip status))

abbrev pub is_denied : Option Bool → Bool
is_denied (some false) = true
is_denied _ = false

-- a status that is given and is not a passing one
abbrev pub is_failing : Option String → Bool
is_failing none = false
is_failing (some status) = not (contains status passing_validation_statuses)

module _ {F : Type 0} ⦃f : Float F⦄ where
  open f use {nought, is_finite, le, lt, abs}

  abbrev pub is_finite_option : Option F → Bool
  is_finite_option none = true
  is_finite_option (some x) = is_finite x

  abbrev pub normalize_drawdown : Option F → Option F
  normalize_drawdown none = none
  normalize_drawdown (some x) = some (abs x)

  unfoldable pub coerce_validation : ValidationEvidence F → Outcome (ValidationEvidence F)
  coerce_validation v = do
    raise_if
        (is_blank v.strategy_family
          || not (is_finite_option v.fee_adjusted_expectancy)
          || not (is_finite_option v.max_drawdown))
        (validation_error "_ValidationEvidence")
    ok (record v {
      status = normalize_status v.status;
      blocked_reasons = dedupe (map strip (keep (λ r. not (is_blank (strip r))) v.blocked_reasons));
      max_drawdown = normalize_drawdown v.max_drawdown;
    })

  unfoldable pub check_paper : PaperEvidence F → Outcome (PaperEvidence F)
  check_paper p = do
    raise_if (is_blank p.strategy_family || not (is_finite p.net_pnl_usd))
        (validation_error "_PaperEvidence")
    ok (record p { failure_reasons = dedupe (keep (λ r. not (is_blank r)) p.failure_reasons) })

  abbrev pub coerce_paper_evidence : Option (PaperEvidence F) → Outcome (Option (PaperEvidence F))
  coerce_paper_evidence none = ok none
  coerce_paper_evidence (some p) = do checked ← check_paper p; ok (some checked)

  unfoldable pub paper_failure_reasons_of : Option (PaperEvidence F) → List String
  paper_failure_reasons_of none = []
  paper_failure_reasons_of (some p) =
      let reasons = dedupe p.failure_reasons in
      dedupe (if le p.net_pnl_usd nought then reasons ++ "negative_net_pnl" ∷ [] else reasons)

  unfoldable pub historical_validation_is_blocked : ValidationEvidence F → Bool
  historical_validation_is_blocked v =
      is_denied v.approved || not (is_empty v.blocked_reasons) || is_failing v.status

  abbrev pub is_at_most_floor : F → Option F → Bool
  is_at_most_floor floor none = true
  is_at_most_floor floor (some x) = le x floor

  abbrev pub is_above_limit : F → Option F → Bool
  is_above_limit limit none = false
  is_above_limit limit (some x) = lt limit x

  unfoldable pub paper_has_failed : Option (PaperEvidence F) → Bool
  paper_has_failed none = false
  paper_has_failed (some p) =
      ltb 0 p.failed_count || not (is_empty (paper_failure_reasons_of (some p)))

  abbrev pub is_mismatched : String → Option (PaperEvidence F) → Bool
  is_mismatched family none = false
  is_mismatched family (some p) = not (p.strategy_family =? family)

  unfoldable pub eligibility_reasons :
      PaperEligibilityPolicy F
      → ValidationEvidence F
      → CharterGuardDecision
      → Option (PaperEvidence F)
      → List PaperEligibilityReasonCode
  eligibility_reasons policy v charter paper = flags (
      (historical_validation_is_blocked v, historical_validation_blocked)
      ∷ (ltb v.trade_count policy.min_historical_trades, insufficient_historical_trades)
      ∷ (
        is_at_most_floor policy.min_fee_adjusted_expectancy v.fee_adjusted_expectancy,
        non_positive_fee_adjusted_expectancy,
      )
      ∷ (is_none v.max_drawdown, drawdown_unbounded)
      ∷ (is_above_limit policy.max_drawdown v.max_drawdown, drawdown_above_limit)
      ∷ (not charter.approved, charter_violation)
      ∷ (paper_has_failed paper, paper_evidence_failed)
      ∷ (is_mismatched v.strategy_family paper, paper_evidence_strategy_mismatch)
      ∷ [])

  unfoldable pub evaluate_paper_eligibility :
      ValidationEvidence F
      → CharterGuardDecision
      → Option (PaperEvidence F)
      → PaperEligibilityPolicy F
      → Outcome (PaperEligibilityDecision F)
  evaluate_paper_eligibility validation charter paper_evidence policy = do
    v ← coerce_validation validation
    paper ← coerce_paper_evidence paper_evidence
    let reasons = eligibility_reasons policy v charter paper
    ok (record {
      allowed = is_empty reasons;
      reason_codes = reasons;
      historical_trade_count = v.trade_count;
      fee_adjusted_expectancy = v.fee_adjusted_expectancy;
      max_drawdown = v.max_drawdown;
      charter_reason_codes = charter.reason_codes;
      paper_failure_reasons = paper_failure_reasons_of paper;
      validation_blocked_reasons = v.blocked_reasons;
    })
