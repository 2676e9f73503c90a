-- ===== src/Examples/Review.antt =====
-- A strategy with thirty winning paper trades and three walk-forward splits, up for review.
use crypto_research_agent.Common.{
  ℕ, zero, suc, refl, true, false, none, some, List, [], ◌∷◌, append_text, contains, lower, strip,
  flags, is_space, digit, digits_from, join_with, lstrip, pick, rstrip, decimal_text,
}
use crypto_research_agent.Common.Int.{ℤ, pos}
use crypto_research_agent.Common.Float.Fixed.{fixed_float, fixed-IsOrdered}
use crypto_research_agent.Evidence.Models.{PaperSimulationOutcome, ValidationEvidence}
use crypto_research_agent.Risk.Review.{
  build_rollout_review_artifact, default_policy, review_artifact,
}
use crypto_research_agent.Risk.Rollout.{
  validation_evidence_to_walk_forward_splits, paper_outcomes_to_rollout_observations,
  evaluate_rollout, compute_max_observed_loss_usd, cost_adjusted_expectancy, failure_rate,
  has_duplicate_from, has_duplicate_ids, loss_step, max_loss_from, net_pnl_usd, observation,
  outcome_status, paper_hit_rate, rollout_reason_codes, splits_from, splits_of_item,
}
use crypto_research_agent.Risk.Rollout.Building.{
  build_strategy_evidence_package, to_paper_evidence_package,
}
use crypto_research_agent.Evidence.Readiness.{
  generate_tiny_live_readiness_artifact, reject_ready_contradictions, artifact_of,
  readiness_reasons, findings_of, check_ready, checklist_of, is_missing, missing_codes,
}
use crypto_research_agent.Common.Dedupe.{dedupe, dedupe_from, dedupe_nonempty}
use crypto_research_agent.Common.Float.{larger}
use crypto_research_agent.Risk.Review.Decision.{IsReadyFor, review_ready}

abbrev winners : ℕ → List (PaperSimulationOutcome ℤ)
winners zero = []
winners (suc n) =
    record {
      outcome_id = append_text "t" (decimal_text n);
      run_id = "r1";
      candidate_id = "c1";
      strategy_family = "carry";
      symbol = "BTC";
      observed_at = "2024-01-02T00:00:00+00:00";
      status = "closed";
      signal_timestamp = "2024-01-01T00:00:00+00:00";
      entry_price = pos 100000;
      exit_price = pos 130000;
      quantity = pos 1000;
      notional_usd = pos 100000;
      gross_pnl_usd = pos 30000;
      fees_usd = pos 1000;
      slippage_usd = pos 1000;
      net_pnl_usd = pos 28000;
      max_drawdown_usd = pos 5000;
      failure_reasons = [];
      venue = "binance";
      cost_model_mode = "base";
      fee_model_id = "legacy_unspecified";
      maker_fee_rate = pos 0;
      taker_fee_rate = pos 0;
      applied_entry_fee_rate = pos 0;
      applied_exit_fee_rate = pos 0;
      entry_fee_usd = pos 500;
      exit_fee_usd = pos 500;
      slippage_bps = pos 0;
      stale_signal_status = "fresh";
      signal_age_seconds = none;
      fill_status = "full";
      fill_ratio = pos 1000;
      touched_real_capital = false;
      live_order_routing = false;
    }
    ∷ winners n

abbrev validated : List (ValidationEvidence ℤ)
validated =
    record {
      evidence_id = "e1";
      run_id = none;
      strategy_family = "carry";
      symbol = "BTC";
      timeframe = "1h";
      validator_name = "close_momentum";
      trade_count = 12;
      net_return = pos 900;
      gross_expectancy = pos 600;
      fee_adjusted_expectancy = pos 500;
      max_drawdown = pos 300;
      walk_forward_pass_rate = pos 10000;
      slippage_adjusted_expectancy = pos 400;
      walk_forward_split_count = 3;
      approved = true;
      blocked_reasons = [];
    }
    ∷ []

review_ready_example :
    IsReadyFor (winners 30) validated true (some "ticket-7") (pos 200000) (pos 50000)
unfolding fixed_float dedupe dedupe_from dedupe_nonempty larger contains lower strip flags is_space
    digit digits_from join_with lstrip pick rstrip decimal_text
    validation_evidence_to_walk_forward_splits paper_outcomes_to_rollout_observations
    build_strategy_evidence_package evaluate_rollout to_paper_evidence_package
    compute_max_observed_loss_usd cost_adjusted_expectancy failure_rate has_duplicate_from
    has_duplicate_ids loss_step max_loss_from net_pnl_usd observation outcome_status paper_hit_rate
    rollout_reason_codes splits_from splits_of_item generate_tiny_live_readiness_artifact
    reject_ready_contradictions artifact_of readiness_reasons findings_of check_ready checklist_of
    is_missing missing_codes build_rollout_review_artifact default_policy review_artifact
review_ready_example =
    review_ready fixed-IsOrdered (winners 30) validated "carry" true (some "ticket-7") (pos 200000)
      (pos 50000) (refl, (refl, (refl, tt))) refl refl
