-- ===== src/Risk/Rollout/Building.antt =====
-- `build_strategy_evidence_package` of src/crypto_alpha_agent/risk/rollout.py: the figures of one strategy
-- family, from the rows of its two ledgers.
use crypto_research_agent.Common.{
  [], false, String, Bool, true, not, ◌&&◌, List, map, is_blank, keep, count_if, length, contains,
  ◌=?◌, string_eq, strip, Outcome, ok, value_error, validation_error, ◌>>=◌, ◌>>◌, raise_if,
}
use crypto_research_agent.Common.Float.{Float, is_nonneg}
use crypto_research_agent.Common.Dedupe.{dedupe_nonempty}
use crypto_research_agent.Evidence.Models.{
  PaperSimulationOutcome, ValidationEvidence, PaperEvidencePackage,
}
use crypto_research_agent.Risk.Rollout.{
  StrategyEvidencePackage, closed_outcome_statuses, failed_outcome_statuses, flat_reasons,
  outcome_status, paper_outcomes_to_rollout_observations,
  validation_evidence_to_walk_forward_splits, compute_max_observed_loss_usd, paper_hit_rate,
}

module _ {F : Type 0} ⦃f : Float F⦄ where
  open f use {is_finite, total}

  abbrev pub is_closed : PaperSimulationOutcome F → Bool
  is_closed o = contains (outcome_status o) closed_outcome_statuses

  abbrev pub is_failed : PaperSimulationOutcome F → Bool
  is_failed o = contains (outcome_status o) failed_outcome_statuses

  -- The package of one family; a blank name, or a figure that is not finite, is refused.
  unfoldable pub build_strategy_evidence_package :
      List (PaperSimulationOutcome F)
      → List (ValidationEvidence F)
      → String
      → Outcome (StrategyEvidencePackage F)
  unfolding paper_outcomes_to_rollout_observations validation_evidence_to_walk_forward_splits
      compute_max_observed_loss_usd paper_hit_rate
  build_strategy_evidence_package outcomes evidence strategy_family = do
    observations ← paper_outcomes_to_rollout_observations outcomes true
    let splits = validation_evidence_to_walk_forward_splits evidence
    let closed = keep is_closed outcomes
    let failed = keep is_failed outcomes
    let max_loss = compute_max_observed_loss_usd outcomes
    let net = total (map (λ o. o.net_pnl_usd) outcomes)
    raise_if (is_blank (strip strategy_family)) (value_error "strategy_family must not be blank")
    raise_if (not (is_finite net && is_nonneg max_loss))
        (validation_error "StrategyEvidencePackage")
    ok (record {
      strategy_family = strip strategy_family;
      validation_evidence_ids = map (λ e. e.evidence_id) evidence;
      validation_blocked_reasons = dedupe_nonempty (flat_reasons (λ e. e.blocked_reasons) evidence);
      paper_outcome_ids = map (λ o. o.outcome_id) outcomes;
      paper_failure_reasons = dedupe_nonempty (flat_reasons (λ o. o.failure_reasons) outcomes);
      sample_size = length outcomes;
      closed_count = length closed;
      failed_count = length failed;
      blocked_count = count_if (λ o. outcome_status o =? "blocked") outcomes;
      net_pnl_usd = net;
      hit_rate = paper_hit_rate closed;
      max_drawdown_usd = max_loss;
      rollout_observation_count = length observations;
      walk_forward_split_count = length splits;
      max_observed_loss_usd = max_loss;
    })

  unfoldable pub to_paper_evidence_package : StrategyEvidencePackage F → PaperEvidencePackage F
  to_paper_evidence_package p = record {
    strategy_family = p.strategy_family;
    sample_size = p.sample_size;
    closed_count = p.closed_count;
    failed_count = p.failed_count;
    blocked_count = p.blocked_count;
    net_pnl_usd = p.net_pnl_usd;
    hit_rate = p.hit_rate;
    max_drawdown_usd = p.max_drawdown_usd;
    total_notional_usd = f.nought;
    gross_pnl_usd = f.nought;
    total_fees_usd = f.nought;
    total_slippage_usd = f.nought;
    stale_signal_count = 0;
    missed_fill_count = 0;
    partial_fill_count = 0;
    cost_model_modes = [];
    failure_reasons = p.paper_failure_reasons;
    approved_for_review = false;
  }
