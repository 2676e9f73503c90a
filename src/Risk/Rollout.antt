-- ===== src/Risk/Rollout.antt =====
-- src/crypto_alpha_agent/risk/rollout.py: the gates that a strategy's paper evidence must pass before
-- a review of a tiny live rollout. The ledgers are read by the caller: the functions here take the
-- outcomes and the validation evidence that `load_outcomes` and `load_evidence` return.
mod Records
unfoldable pub use Records.*
pub mod Evaluation
pub mod Building
pub mod Package
use crypto_research_agent.Common.{
  ℕ, zero, suc, ◌+◌, String, append_text, Bool, true, false, not, ◌&&◌, ◌||◌, Option, none, some,
  List, [], ◌∷◌, ◌++◌, map, ltb, ◌==◌, if◌then◌else◌, is_empty, is_blank, any, keep, count_if,
  length, flags, contains, Eq, ◌=?◌, eq_of_discrete, string_eq, strip, lower, decimal_text, Outcome,
  ok, err, value_error, validation_error, ◌>>=◌, ◌>>◌, raise_if,
}
use crypto_research_agent.Common.Float.{Float, larger, is_nonneg}
use crypto_research_agent.Common.Dedupe.{dedupe_nonempty}
use crypto_research_agent.Evidence.Models.{
  PaperSimulationOutcome, ValidationEvidence, PaperEvidencePackage,
}

-- the loop over the ids with the set of those seen
unfoldable pub has_duplicate_from : List String → List String → Bool
has_duplicate_from seen [] = false
has_duplicate_from seen (x ∷ xs) = contains x seen || has_duplicate_from (x ∷ seen) xs

unfoldable pub has_duplicate_ids : List String → Bool
unfolding has_duplicate_from
has_duplicate_ids ids = has_duplicate_from [] ids

abbrev pub flat_reasons {ℓ} : {A : Type ℓ} → (A → List String) → List A → List String
flat_reasons g [] = []
flat_reasons g (x ∷ xs) = g x ++ flat_reasons g xs

module _ {F : Type 0} ⦃f : Float F⦄ where
  open f use {nought, decimal, is_finite, le, lt, add, sub, div, abs, ratio, total}

  unfoldable pub outcome_status : PaperSimulationOutcome F → String
  outcome_status outcome = lower (strip outcome.status)

  -- The constructor of the model refuses a cost that is not finite.
  unfoldable pub observation : PaperSimulationOutcome F → Bool → Outcome (PaperTradeObservation F)
  observation outcome failed =
      let cost = add outcome.fees_usd outcome.slippage_usd in
      if not (is_finite outcome.gross_pnl_usd && is_nonneg cost)
      then err (validation_error "PaperTradeObservation")
      else ok (record {
        trade_id = outcome.outcome_id;
        gross_pnl_usd = outcome.gross_pnl_usd;
        total_cost_usd = cost;
        failed = failed;
        violates_override = false;
      })

  unfoldable pub paper_outcomes_to_rollout_observations :
      List (PaperSimulationOutcome F) → Bool → Outcome (List (PaperTradeObservation F))
  unfolding outcome_status observation
  paper_outcomes_to_rollout_observations [] include_failed = ok []
  paper_outcomes_to_rollout_observations (outcome ∷ outcomes) include_failed =
      let rest = paper_outcomes_to_rollout_observations outcomes include_failed in
      let status = outcome_status outcome in
      if contains status closed_outcome_statuses
      then (observation outcome false >>= λ o. rest >>= λ os. ok (o ∷ os))
      else if include_failed && contains status failed_observation_statuses
      then (observation outcome true >>= λ o. rest >>= λ os. ok (o ∷ os))
      else rest

  -- `for split_index in range(count)`, from an index on
  unfoldable pub splits_of_item : ValidationEvidence F → ℕ → ℕ → List (WalkForwardSplit F)
  splits_of_item item index zero = []
  splits_of_item item index (suc n) =
      record {
        split_id = append_text item.evidence_id (append_text ":split:" (decimal_text index));
        cost_adjusted_expectancy_usd = item.slippage_adjusted_expectancy;
      }
      ∷ splits_of_item item (index + 1) n

  unfoldable pub splits_from : List String → List (ValidationEvidence F) → List (WalkForwardSplit F)
  unfolding splits_of_item
  splits_from seen [] = []
  splits_from seen (item ∷ items) =
      let rest = splits_from (item.evidence_id ∷ seen) items in
      let later = splits_from seen items in
      if contains item.evidence_id seen
      then later
      else if not item.approved || not (is_empty item.blocked_reasons)
      then rest
      else splits_of_item item 0 item.walk_forward_split_count ++ rest

  unfoldable pub validation_evidence_to_walk_forward_splits :
      List (ValidationEvidence F) → List (WalkForwardSplit F)
  unfolding splits_from
  validation_evidence_to_walk_forward_splits evidence = splits_from [] evidence

  -- one round of the loop over the outcomes
  unfoldable pub loss_step : F → PaperSimulationOutcome F → F
  unfolding outcome_status larger
  loss_step max_loss outcome =
      let drawdown = larger max_loss outcome.max_drawdown_usd in
      let net =
        if lt outcome.net_pnl_usd nought
        then larger drawdown (abs outcome.net_pnl_usd)
        else drawdown in
      let derived = sub (sub outcome.gross_pnl_usd outcome.fees_usd) outcome.slippage_usd in
      if not (contains (outcome_status outcome) loss_evidence_statuses)
      then max_loss
      else if lt derived nought
      then larger net (abs derived)
      else net

  unfoldable pub max_loss_from : F → List (PaperSimulationOutcome F) → F
  unfolding loss_step
  max_loss_from max_loss [] = max_loss
  max_loss_from max_loss (outcome ∷ outcomes) = max_loss_from (loss_step max_loss outcome) outcomes

  unfoldable pub compute_max_observed_loss_usd : List (PaperSimulationOutcome F) → F
  unfolding max_loss_from
  compute_max_observed_loss_usd outcomes = max_loss_from nought outcomes

  unfoldable pub net_pnl_usd : PaperTradeObservation F → F
  net_pnl_usd o = sub o.gross_pnl_usd o.total_cost_usd

  unfoldable pub cost_adjusted_expectancy : List (PaperTradeObservation F) → F
  unfolding net_pnl_usd
  cost_adjusted_expectancy observations =
      if is_empty observations
      then nought
      else div (total (map net_pnl_usd observations)) (decimal (length observations) 0)

  unfoldable pub failure_rate : List (PaperTradeObservation F) → F
  failure_rate observations =
      if is_empty observations
      then nought
      else ratio (count_if (λ o. o.failed) observations) (length observations)

  unfoldable pub paper_hit_rate : List (PaperSimulationOutcome F) → F
  paper_hit_rate closed =
      if is_empty closed
      then nought
      else ratio (count_if (λ o. lt nought o.net_pnl_usd) closed) (length closed)

  unfoldable pub rollout_reason_codes :
      RolloutPolicy F
      → List (PaperTradeObservation F)
      → List (WalkForwardSplit F)
      → F
      → List RolloutReasonCode
  unfolding has_duplicate_ids cost_adjusted_expectancy failure_rate
  rollout_reason_codes policy observations splits max_loss =
      let count = length observations in
      flags (
        (ltb count policy.min_paper_trade_count, insufficient_sample_size)
        ∷ (ltb (length splits) policy.min_walk_forward_splits, insufficient_walk_forward_splits)
        ∷ (has_duplicate_ids (map (λ o. o.trade_id) observations), duplicate_paper_trade_evidence)
        ∷ (has_duplicate_ids (map (λ s. s.split_id) splits), duplicate_walk_forward_split)
        ∷ (
          ltb 0 count && le (cost_adjusted_expectancy observations) nought,
          non_positive_cost_adjusted_expectancy,
        )
        ∷ (
          ltb 0 count && lt policy.max_failure_rate (failure_rate observations),
          failure_rate_above_limit,
        )
        ∷ (
          any (λ s. le s.cost_adjusted_expectancy_usd policy.min_walk_forward_expectancy_usd)
              splits,
          unstable_walk_forward_performance,
        )
        ∷ (any (λ o. o.violates_override) observations, manual_override_violation)
        ∷ (lt policy.max_loss_budget_usd max_loss, max_loss_budget_breached)
        ∷ [])

  -- The model of the result refuses figures that are not finite, or negative where they cannot be.
  unfoldable pub evaluate_rollout :
      RolloutPolicy F
      → List (PaperTradeObservation F)
      → List (WalkForwardSplit F)
      → F
      → Outcome (RolloutEvaluation F)
  unfolding rollout_reason_codes
  evaluate_rollout policy observations splits max_loss =
      let reasons = rollout_reason_codes policy observations splits max_loss in
      let expectancy = cost_adjusted_expectancy observations in
      let rate = failure_rate observations in
      if not (is_finite expectancy && is_nonneg rate && is_nonneg max_loss)
      then err (validation_error "RolloutEvaluation")
      else ok (record {
        eligible_for_tiny_live = is_empty reasons;
        reason_codes = reasons;
        observation_count = length observations;
        walk_forward_split_count = length splits;
        cost_adjusted_expectancy_usd = expectancy;
        failure_rate = rate;
        max_observed_loss_usd = max_loss;
      })
