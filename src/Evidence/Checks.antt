-- ===== src/Evidence/Checks.antt =====
-- The validators of src/crypto_alpha_agent/evidence/models.py, in the order in which pydantic runs them:
-- the fields, with their normalisation, before the model. Of several refused fields the first is
-- reported. `isalnum` and `lower` are those of ASCII texts.
pub mod Validation
pub mod Safety
use Prim.Native.Char.{Char, code}
use text.Mathlib.Text.{starts_with}
use crypto_research_agent.Common.{
  ℕ, String, append_text, Bool, true, false, not, ◌&&◌, ◌||◌, Option, none, some, List, [], ◌∷◌,
  map, if◌then◌else◌, leb, is_empty, any, keep, is_blank, strip, lower, occurs_in, join_with, flags,
  contains, string_eq, Outcome, ok, err, value_error, validation_error, ◌>>=◌, ◌>>◌, raise_if,
}
use crypto_research_agent.Common.Float.{Float, is_nonneg}
use crypto_research_agent.Common.Dedupe.{dedupe_nonempty}
use crypto_research_agent.Evidence.Json.{Value, Entries, dict, freeze}
use crypto_research_agent.Evidence.Models.{PaperSimulationOutcome, StrategyCandidate, ExperimentRun}

-- `_strip_nonblank`
unfoldable pub strip_nonblank : String → Outcome String
strip_nonblank value = do
  raise_if (is_blank (strip value)) (value_error "value must not be blank")
  ok (strip value)

abbrev pub strip_optional : Option String → Outcome (Option String)
strip_optional none = ok none
strip_optional (some value) = strip_nonblank value >>= λ stripped. ok (some stripped)

-- `c.isalnum()`
unfoldable pub is_alnum : ℕ → Bool
is_alnum c = (leb 48 c && leb c 57) || (leb 65 c && leb c 90) || (leb 97 c && leb c 122)

unfoldable pub alnum_only : String → String
alnum_only String.[] = String.[]
alnum_only (String.◌∷◌ c s) =
    let rest = alnum_only s in if is_alnum (code c) then String.◌∷◌ c rest else rest

-- `_data_source_safety_key`
unfoldable pub data_source_safety_key : String → String
data_source_safety_key source = alnum_only (lower source)

abbrev pub unsafe_data_source_tokens : List String
unsafe_data_source_tokens = "privaterpc" ∷ "premiumrpc" ∷ "mempool" ∷ "mev" ∷ []

unfoldable pub is_unsafe_source : String → Bool
is_unsafe_source source =
    any (λ token. occurs_in token (data_source_safety_key source)) unsafe_data_source_tokens

-- `_normalize_required_data_sources`
unfoldable pub normalize_required_data_sources : List String → Outcome (List String)
normalize_required_data_sources values =
    let normalized = dedupe_nonempty values in
    let unsafe_sources = keep is_unsafe_source normalized in
    do
      raise_if (is_empty normalized)
          (value_error "data_sources must include at least one nonblank source")
      raise_if (not (is_empty unsafe_sources)) (
          value_error (
            append_text "data_sources include unsafe live-only sources: "
              (join_with ", " unsafe_sources)))
      ok normalized

-- `if blocked: raise ValueError(...)` of the reasons under their conditions
abbrev pub refuse_blocked : String → List String → Outcome (Unit {0})
refuse_blocked message blocked =
    raise_if (not (is_empty blocked)) (value_error (append_text message (join_with ", " blocked)))

module _ {F : Type 0} ⦃f : Float F⦄ where
  open f use {decimal, is_finite, le, lt}

  -- `_freeze_json_safe_parameters`, of a field whose type asks for a dict
  abbrev pub freeze_parameters : Value F → Outcome (Value F)
  freeze_parameters (dict entries) = freeze (dict entries)
  freeze_parameters _ = err (validation_error "StrategyCandidate")

  abbrev pub unsafe_requirements : StrategyCandidate F → List (Bool × String)
  unsafe_requirements c =
      (c.requires_speed_edge, "requires_speed_edge")
      ∷ (c.requires_premium_rpc, "requires_premium_rpc")
      ∷ (c.live_order_routing, "live_order_routing")
      ∷ (lt c.current_capital_usd c.min_capital_usd, "min_capital_exceeds_current_capital")
      ∷ []

  unfoldable pub strategy_candidate : StrategyCandidate F → Outcome (StrategyCandidate F)
  strategy_candidate c = do
    candidate_id ← strip_nonblank c.candidate_id
    strategy_family ← strip_nonblank c.strategy_family
    symbol ← strip_nonblank c.symbol
    venue ← strip_nonblank c.venue
    timeframe ← strip_nonblank c.timeframe
    parameters ← freeze_parameters c.parameters
    raise_if (not (is_nonneg c.current_capital_usd && is_nonneg c.min_capital_usd))
        (validation_error "StrategyCandidate")
    data_sources ← normalize_required_data_sources c.data_sources
    refuse_blocked "strategy candidate is not low-capital paper safe: "
        (flags (unsafe_requirements c))
    ok (record c {
      candidate_id = candidate_id;
      strategy_family = strategy_family;
      symbol = symbol;
      venue = venue;
      timeframe = timeframe;
      parameters = parameters;
      data_sources = data_sources;
      blocked_reasons = dedupe_nonempty c.blocked_reasons;
    })

  abbrev pub is_optional_nonneg : Option F → Bool
  is_optional_nonneg none = true
  is_optional_nonneg (some x) = is_nonneg x

  -- the constraints on the numbers and the literals of an outcome
  unfoldable pub accepts_outcome : PaperSimulationOutcome F → Bool
  accepts_outcome o =
      is_nonneg o.entry_price
      && is_nonneg o.exit_price
      && is_nonneg o.quantity
      && is_nonneg o.notional_usd
      && is_finite o.gross_pnl_usd
      && is_nonneg o.fees_usd
      && is_nonneg o.slippage_usd
      && is_finite o.net_pnl_usd
      && is_nonneg o.max_drawdown_usd
      && contains o.cost_model_mode ("legacy" ∷ "base" ∷ "pessimistic" ∷ [])
      && is_nonneg o.maker_fee_rate
      && is_nonneg o.taker_fee_rate
      && is_nonneg o.applied_entry_fee_rate
      && is_nonneg o.applied_exit_fee_rate
      && is_nonneg o.entry_fee_usd
      && is_nonneg o.exit_fee_usd
      && is_nonneg o.slippage_bps
      && contains o.stale_signal_status ("fresh" ∷ "stale" ∷ "not_evaluated" ∷ [])
      && is_optional_nonneg o.signal_age_seconds
      && contains o.fill_status ("full" ∷ "partial" ∷ "missed" ∷ "blocked" ∷ "not_evaluated" ∷ [])
      && is_nonneg o.fill_ratio
      && le o.fill_ratio (decimal 1 0)

  unfoldable pub paper_simulation_outcome :
      PaperSimulationOutcome F → Outcome (PaperSimulationOutcome F)
  paper_simulation_outcome o = do
    outcome_id ← strip_nonblank o.outcome_id
    run_id ← strip_nonblank o.run_id
    candidate_id ← strip_nonblank o.candidate_id
    strategy_family ← strip_nonblank o.strategy_family
    symbol ← strip_nonblank o.symbol
    status ← strip_nonblank o.status
    venue ← strip_nonblank o.venue
    fee_model_id ← strip_nonblank o.fee_model_id
    raise_if (not (accepts_outcome o)) (validation_error "PaperSimulationOutcome")
    refuse_blocked "paper simulation outcome cannot use live execution paths: " (
        flags (
          (o.touched_real_capital, "touched_real_capital")
          ∷ (o.live_order_routing, "live_order_routing")
          ∷ []))
    ok (record o {
      outcome_id = outcome_id;
      run_id = run_id;
      candidate_id = candidate_id;
      strategy_family = strategy_family;
      symbol = symbol;
      status = status;
      venue = venue;
      fee_model_id = fee_model_id;
      failure_reasons = dedupe_nonempty o.failure_reasons;
    })

unfoldable pub experiment_run : ExperimentRun → Outcome ExperimentRun
experiment_run r = do
  run_id ← strip_nonblank r.run_id
  candidate_id ← strip_nonblank r.candidate_id
  strategy_family ← strip_nonblank r.strategy_family
  data_sources ← normalize_required_data_sources r.data_sources
  status ← strip_nonblank r.status
  raise_if r.live_order_routing (value_error "experiment run cannot enable live_order_routing")
  ok (record r {
    run_id = run_id;
    candidate_id = candidate_id;
    strategy_family = strategy_family;
    data_sources = data_sources;
    status = status;
    validation_evidence_ids = dedupe_nonempty r.validation_evidence_ids;
    paper_outcome_ids = dedupe_nonempty r.paper_outcome_ids;
    notes = dedupe_nonempty r.notes;
  })
