-- ===== src/Evidence/Checks/Validation.antt =====
-- `ValidationEvidence` of src/crypto_alpha_agent/evidence/models.py. `hexdigest` is a parameter: the
-- first 16 digits of `hashlib.sha256` of what `json.dumps` gives for a payload.
pub mod Revalidation
pub mod Population
use crypto_research_agent.Common.{
  ℕ, String, append_text, Bool, true, false, not, ◌&&◌, Option, none, some, List, [], ◌∷◌, ◌==◌,
  is_empty, strip, ◌=?◌, string_eq, Outcome, ok, err, value_error, validation_error, ◌>>=◌, ◌>>◌,
  raise_if,
}
use crypto_research_agent.Common.Int.{ℤ}
use crypto_research_agent.Common.Float.{Float, is_nonneg}
use crypto_research_agent.Common.Dedupe.{dedupe_nonempty}
use crypto_research_agent.Evidence.Models.{ValidationEvidence}
use crypto_research_agent.Evidence.Checks.{strip_nonblank, strip_optional}

-- a number as it is given: an int, which a field of type float takes and converts, or a float
pub data RawNumber (F : Type 0) : Type 0 where
  whole : ℤ → RawNumber F
  real : F → RawNumber F

-- the data that a model is built from, `evidence_id` absent or not, before its numbers are converted
pub record EvidenceData (F : Type 0) : Type 0 where
  pub given_id : Option String
  pub evidence : ValidationEvidence (RawNumber F)

abbrev pub with_numbers : {A B : Type 0} → (A → B) → ValidationEvidence A → ValidationEvidence B
with_numbers convert e = record {
  evidence_id = e.evidence_id;
  run_id = e.run_id;
  strategy_family = e.strategy_family;
  symbol = e.symbol;
  timeframe = e.timeframe;
  validator_name = e.validator_name;
  trade_count = e.trade_count;
  net_return = convert e.net_return;
  gross_expectancy = convert e.gross_expectancy;
  fee_adjusted_expectancy = convert e.fee_adjusted_expectancy;
  slippage_adjusted_expectancy = convert e.slippage_adjusted_expectancy;
  max_drawdown = convert e.max_drawdown;
  walk_forward_split_count = e.walk_forward_split_count;
  walk_forward_pass_rate = convert e.walk_forward_pass_rate;
  approved = e.approved;
  blocked_reasons = e.blocked_reasons;
}

-- an evidence as data of which all numbers are floats
abbrev pub as_data : {F : Type 0} → ValidationEvidence F → ValidationEvidence (RawNumber F)
as_data e = with_numbers real e

-- `_VALIDATION_EVIDENCE_ID_FIELDS`
pub record EvidencePayload (F : Type 0) : Type 0 where
  pub strategy_family : String
  pub symbol : String
  pub timeframe : String
  pub validator_name : String
  pub trade_count : ℕ
  pub net_return : F
  pub gross_expectancy : F
  pub fee_adjusted_expectancy : F
  pub slippage_adjusted_expectancy : F
  pub max_drawdown : F
  pub walk_forward_split_count : ℕ
  pub walk_forward_pass_rate : F
  pub approved : Bool
  pub blocked_reasons : List String

-- `_canonical_evidence_id_value` of each field
abbrev pub canonical_payload : {F : Type 0} → ValidationEvidence F → EvidencePayload F
canonical_payload e = record {
  strategy_family = strip e.strategy_family;
  symbol = strip e.symbol;
  timeframe = strip e.timeframe;
  validator_name = strip e.validator_name;
  trade_count = e.trade_count;
  net_return = e.net_return;
  gross_expectancy = e.gross_expectancy;
  fee_adjusted_expectancy = e.fee_adjusted_expectancy;
  slippage_adjusted_expectancy = e.slippage_adjusted_expectancy;
  max_drawdown = e.max_drawdown;
  walk_forward_split_count = e.walk_forward_split_count;
  walk_forward_pass_rate = e.walk_forward_pass_rate;
  approved = e.approved;
  blocked_reasons = dedupe_nonempty e.blocked_reasons;
}

module _ {F : Type 0} ⦃f : Float F⦄ where
  open f use {decimal, is_finite, le}

  abbrev pub is_finite_number : RawNumber F → Bool
  is_finite_number (whole n) = true
  is_finite_number (real x) = is_finite x

  -- the floats of which `_jsonable_value` asks that they are finite
  unfoldable pub has_finite_floats : ValidationEvidence (RawNumber F) → Bool
  has_finite_floats e =
      is_finite_number e.net_return
      && is_finite_number e.gross_expectancy
      && is_finite_number e.fee_adjusted_expectancy
      && is_finite_number e.slippage_adjusted_expectancy
      && is_finite_number e.max_drawdown
      && is_finite_number e.walk_forward_pass_rate

  -- the constraints on the numbers of an evidence
  unfoldable pub accepts_numbers : ValidationEvidence F → Bool
  accepts_numbers e =
      is_finite e.net_return
      && is_finite e.gross_expectancy
      && is_finite e.fee_adjusted_expectancy
      && is_finite e.slippage_adjusted_expectancy
      && is_nonneg e.max_drawdown
      && is_nonneg e.walk_forward_pass_rate
      && le e.walk_forward_pass_rate (decimal 1 0)

  -- the field validators
  unfoldable pub normalize_evidence : ValidationEvidence F → Outcome (ValidationEvidence F)
  normalize_evidence e = do
    evidence_id ← strip_nonblank e.evidence_id
    run_id ← strip_optional e.run_id
    strategy_family ← strip_nonblank e.strategy_family
    symbol ← strip_nonblank e.symbol
    timeframe ← strip_nonblank e.timeframe
    validator_name ← strip_nonblank e.validator_name
    raise_if (not (accepts_numbers e)) (validation_error "ValidationEvidence")
    ok (record e {
      evidence_id = evidence_id;
      run_id = run_id;
      strategy_family = strategy_family;
      symbol = symbol;
      timeframe = timeframe;
      validator_name = validator_name;
      blocked_reasons = dedupe_nonempty e.blocked_reasons;
    })

  unfoldable pub reject_approval_contradictions :
      ValidationEvidence F → Outcome (ValidationEvidence F)
  reject_approval_contradictions e = do
    raise_if (e.approved && (e.walk_forward_split_count == 0))
        (value_error "approved validation evidence requires walk-forward splits")
    raise_if (e.approved && not (is_empty e.blocked_reasons))
        (value_error "approved validation evidence cannot include blocked_reasons")
    ok e

  module _ (hexdigest : EvidencePayload (RawNumber F) → String) where
    -- `_stable_validation_evidence_id`, of the numbers as they are
    unfoldable pub stable_validation_evidence_id : ValidationEvidence (RawNumber F) → Outcome String
    stable_validation_evidence_id e = do
      raise_if (not (has_finite_floats e))
          (value_error "canonical evidence values must contain only finite floats")
      ok (append_text "validation-" (hexdigest (canonical_payload e)))

    abbrev pub populate_from :
        Option String
        → ValidationEvidence (RawNumber F)
        → Outcome (ValidationEvidence (RawNumber F))
    populate_from none e =
        stable_validation_evidence_id e >>= λ generated. ok (record e { evidence_id = generated })
    populate_from (some given) e = ok (record e { evidence_id = given })

    -- `_populate_evidence_id`, which sees the data before their numbers are converted
    abbrev pub populate_evidence_id : EvidenceData F → Outcome (ValidationEvidence (RawNumber F))
    populate_evidence_id draft = populate_from draft.given_id draft.evidence

    -- `_reject_noncanonical_evidence_id`, which sees the converted numbers
    unfoldable pub reject_noncanonical_evidence_id :
        ValidationEvidence F → Outcome (ValidationEvidence F)
    reject_noncanonical_evidence_id e = do
      canonical_id ← stable_validation_evidence_id (as_data e)
      raise_if (not (e.evidence_id =? canonical_id))
          (value_error "evidence_id must match canonical validation evidence payload")
      ok e

    module _ (float_of : ℤ → F) where
      abbrev pub converted : RawNumber F → F
      converted (whole n) = float_of n
      converted (real x) = x

      unfoldable pub validation_evidence : EvidenceData F → Outcome (ValidationEvidence F)
      validation_evidence draft = do
        populated ← populate_evidence_id draft
        normalized ← normalize_evidence (with_numbers converted populated)
        canonical ← reject_noncanonical_evidence_id normalized
        reject_approval_contradictions canonical
