-- ===== src/Examples/Evidence.antt =====
-- The records of evidence at concrete inputs.
use crypto_research_agent.Common.{
  ◌≡◌, refl, String, append_text, true, false, none, some, [], ◌∷◌, ok,
}
use crypto_research_agent.Common.Int.{negsuc, ℤ, pos}
use crypto_research_agent.Common.Float.Fixed.{fixed_float}
use crypto_research_agent.Evidence.Json.{
  Value, text, list, nil, cons, dict, frozen, entry, end, int, freeze, thaw,
}
use crypto_research_agent.Evidence.Json.RoundTrip.{is_json, is_immutable, thaw-freeze_json}
use crypto_research_agent.Evidence.Models.{StrategyCandidate, ValidationEvidence}
use crypto_research_agent.Evidence.Checks.{strategy_candidate}
use crypto_research_agent.Evidence.Checks.Validation.{
  RawNumber, as_data, EvidenceData, EvidencePayload, validation_evidence, canonical_payload,
}
use crypto_research_agent.Evidence.Checks.Validation.Revalidation.{validation_evidence_again}
use crypto_research_agent.Evidence.Checks.Validation.Population.{
  IsAcceptable, normalized_with_id, validation_evidence-generated,
}
use crypto_research_agent.Evidence.Checks.{strip_nonblank}
use crypto_research_agent.Common.{strip, ◌*◌, ◌+◌}
use crypto_research_agent.Evidence.Checks.{normalize_required_data_sources}
use crypto_research_agent.Common.Dedupe.{dedupe_nonempty}
use crypto_research_agent.Common.{contains}
use crypto_research_agent.Evidence.Checks.{is_unsafe_source}
use crypto_research_agent.Common.{occurs_in}
use crypto_research_agent.Evidence.Checks.{data_source_safety_key}
use crypto_research_agent.Evidence.Checks.{alnum_only}
use crypto_research_agent.Common.{lower}
use crypto_research_agent.Evidence.Checks.{is_alnum}
use crypto_research_agent.Common.{flags}
use crypto_research_agent.Evidence.Checks.Validation.{stable_validation_evidence_id}
use crypto_research_agent.Evidence.Checks.Validation.{has_finite_floats}
use crypto_research_agent.Evidence.Checks.Validation.{normalize_evidence}
use crypto_research_agent.Evidence.Checks.Validation.{accepts_numbers}
use crypto_research_agent.Evidence.Checks.Validation.{reject_noncanonical_evidence_id}
use crypto_research_agent.Evidence.Checks.Validation.{reject_approval_contradictions}
use crypto_research_agent.Common.{is_space}

abbrev parameters : Value ℤ
parameters = dict (entry (some "lookback") (list (cons (int (pos 3)) (cons (text "h") nil))) end)

thaw-freeze_json_example :
    (w : Value ℤ) × (freeze parameters ≡ ok w) × (thaw w ≡ parameters) × (is_immutable w ≡ true)
unfolding is_json
thaw-freeze_json_example = thaw-freeze_json parameters refl

abbrev candidate : StrategyCandidate ℤ
candidate = record {
  candidate_id = " c1 ";
  strategy_family = "momentum";
  symbol = "BTC";
  venue = "binance";
  timeframe = "1h";
  parameters = dict (entry (some "lookback") (int (pos 3)) end);
  current_capital_usd = pos 1000000;
  min_capital_usd = pos 500000;
  data_sources = "binance klines" ∷ "binance klines " ∷ [];
  created_at = "2024-01-01T00:00:00+00:00";
  requires_speed_edge = false;
  requires_premium_rpc = false;
  live_order_routing = false;
  blocked_reasons = [];
}

abbrev accepted : StrategyCandidate ℤ
accepted = record candidate {
  candidate_id = "c1";
  parameters = frozen (entry (some "lookback") (int (pos 3)) end);
  data_sources = "binance klines" ∷ [];
}

candidate_is_accepted : strategy_candidate candidate ≡ ok accepted
unfolding strategy_candidate strip_nonblank strip freeze fixed_float normalize_required_data_sources
    dedupe_nonempty contains is_unsafe_source occurs_in data_source_safety_key alnum_only lower
    is_alnum flags
candidate_is_accepted = refl

abbrev digest : EvidencePayload (RawNumber ℤ) → String
digest _ = "0123456789abcdef"

abbrev evidence : ValidationEvidence ℤ
evidence = record {
  evidence_id = "";
  run_id = some "r1 ";
  strategy_family = " momentum";
  symbol = "BTC";
  timeframe = "1h";
  validator_name = "walk";
  trade_count = 12;
  net_return = pos 500;
  gross_expectancy = pos 40;
  fee_adjusted_expectancy = pos 30;
  slippage_adjusted_expectancy = pos 20;
  max_drawdown = pos 100;
  walk_forward_split_count = 3;
  walk_forward_pass_rate = pos 10000;
  approved = true;
  blocked_reasons = " " ∷ [];
}

abbrev stored : ValidationEvidence ℤ
stored = record evidence {
  evidence_id = "validation-0123456789abcdef";
  run_id = some "r1";
  strategy_family = "momentum";
  blocked_reasons = [];
}

abbrev draft : EvidenceData ℤ
draft = record { given_id = none; evidence = as_data evidence }

abbrev ten_thousandths : ℤ → ℤ
ten_thousandths (pos n) = pos (n * 10000)
ten_thousandths (negsuc n) = negsuc (n * 10000 + 9999)

draft_is_stored : validation_evidence digest ten_thousandths draft ≡ ok stored
unfolding validation_evidence stable_validation_evidence_id has_finite_floats fixed_float
    normalize_evidence strip_nonblank strip accepts_numbers reject_noncanonical_evidence_id
    reject_approval_contradictions dedupe_nonempty
draft_is_stored = refl

validation_evidence_again_example :
    validation_evidence digest ten_thousandths
      (record { given_id = some "validation-0123456789abcdef"; evidence = as_data stored })
    ≡ ok stored
validation_evidence_again_example =
    validation_evidence_again digest ten_thousandths draft stored draft_is_stored

evidence-IsAcceptable : IsAcceptable evidence
unfolding strip accepts_numbers fixed_float dedupe_nonempty
evidence-IsAcceptable = record {
  run_id = refl;
  strategy_family = refl;
  symbol = refl;
  timeframe = refl;
  validator_name = refl;
  numbers = refl;
  has_splits = refl;
  is_unblocked = refl;
}

validation_evidence-generated_example :
    validation_evidence digest ten_thousandths draft
    ≡ ok (
        normalized_with_id
          (append_text "validation-" (digest (canonical_payload (as_data evidence))))
          evidence)
unfolding is_space
validation_evidence-generated_example =
    validation_evidence-generated digest (λ _. refl) ten_thousandths evidence evidence-IsAcceptable
