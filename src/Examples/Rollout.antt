-- ===== src/Examples/Rollout.antt =====
-- The rollout gates and the readiness review at small inputs.
use crypto_research_agent.Common.{
  ◌+◌, ◌≤◌, ◌≡◌, refl, arith, string_eq, String, true, false, none, some, List, [], ◌∷◌, ok, All,
  length,
}
use crypto_research_agent.Common.Int.{ℤ, pos, negsuc}
use crypto_research_agent.Common.Float.{◌≼◌}
use crypto_research_agent.Common.Float.Fixed.{fixed_float, fixed-IsOrdered}
use crypto_research_agent.Evidence.Models.{PaperSimulationOutcome, PaperEvidencePackage}
use crypto_research_agent.Risk.Rollout.{
  RolloutPolicy, RolloutEvaluation, RolloutReasonCode, PaperTradeObservation, WalkForwardSplit,
  evaluate_rollout, compute_max_observed_loss_usd,
}
use crypto_research_agent.Risk.Rollout.Building.{build_strategy_evidence_package}
use crypto_research_agent.Risk.Rollout.Evaluation.{Eligible, evaluate_rollout-Eligible_iff}
use crypto_research_agent.Risk.Rollout.Package.{
  package_counts, CountsLosses, max_observed_loss_bounds,
}
use crypto_research_agent.Evidence.Readiness.{generate_tiny_live_readiness_artifact}
use crypto_research_agent.Evidence.Readiness.Review.{
  Reviewable, readiness_iff, readiness_total, made,
}
use crypto_research_agent.Common.{flags}
use crypto_research_agent.Common.{contains}
use crypto_research_agent.Common.{lower}
use crypto_research_agent.Common.{strip}
use crypto_research_agent.Evidence.Readiness.{reject_ready_contradictions}
use crypto_research_agent.Evidence.Readiness.{artifact_of}
use crypto_research_agent.Evidence.Readiness.{readiness_reasons}
use crypto_research_agent.Evidence.Readiness.{findings_of}
use crypto_research_agent.Evidence.Readiness.{check_ready}
use crypto_research_agent.Evidence.Readiness.{checklist_of}
use crypto_research_agent.Evidence.Readiness.{missing_codes}

abbrev policy : RolloutPolicy ℤ
policy = record {
  min_paper_trade_count = 2;
  max_failure_rate = pos 1000;
  min_walk_forward_splits = 1;
  min_walk_forward_expectancy_usd = pos 0;
  max_loss_budget_usd = pos 100000;
}

abbrev trade : String → PaperTradeObservation ℤ
trade id = record {
  trade_id = id;
  gross_pnl_usd = pos 30000;
  total_cost_usd = pos 10000;
  failed = false;
  violates_override = false;
}

abbrev splits : List (WalkForwardSplit ℤ)
splits = record { split_id = "e:split:0"; cost_adjusted_expectancy_usd = pos 500 } ∷ []

evaluate_rollout-Eligible_iff_example :
    Eligible policy (trade "a" ∷ trade "b" ∷ []) splits (pos 20000)
unfolding evaluate_rollout fixed_float flags contains
evaluate_rollout-Eligible_iff_example =
    (evaluate_rollout-Eligible_iff fixed-IsOrdered policy (trade "a" ∷ trade "b" ∷ []) splits
        (pos 20000)
        (record {
          count = omega arith;
          rate = refl;
          floor = refl;
          budget = refl;
          expectancies = (refl, tt);
        })
        refl).0.0
      refl

abbrev outcome : String → String → ℤ → PaperSimulationOutcome ℤ
outcome id status net = record {
  outcome_id = id;
  run_id = "r1";
  candidate_id = "c1";
  strategy_family = "carry";
  symbol = "BTC";
  observed_at = "2024-01-02T00:00:00+00:00";
  status = status;
  signal_timestamp = "2024-01-01T00:00:00+00:00";
  entry_price = pos 100000;
  exit_price = pos 130000;
  quantity = pos 1000;
  notional_usd = pos 100000;
  gross_pnl_usd = pos 30000;
  fees_usd = pos 1000;
  slippage_usd = pos 1000;
  net_pnl_usd = net;
  max_drawdown_usd = pos 5000;
  failure_reasons = [];
  venue = "binance";
  cost_model_mode = "base";
  fee_model_id = "legacy_unspecified";
  maker_fee_rate = pos 0;
  taker_fee_rate = pos 0;
  applied_entry_fee_rate = pos 0;
  applied_exit_fee_rate = pos 0;
  entry_fee_usd = pos 500;
  exit_fee_usd = pos 500;
  slippage_bps = pos 0;
  stale_signal_status = "fresh";
  signal_age_seconds = none;
  fill_status = "full";
  fill_ratio = pos 1000;
  touched_real_capital = false;
  live_order_routing = false;
}

abbrev outcomes : List (PaperSimulationOutcome ℤ)
outcomes =
    outcome "a" "Closed" (pos 28000)
    ∷ outcome "b" "failed" (negsuc 8000)
    ∷ outcome "c" "blocked" (pos 0)
    ∷ []

package_counts_example : (2 + 1 ≡ 1 + 2) × (1 ≤ 2) × (1 + 2 ≤ 3) × (3 ≡ length outcomes)
unfolding build_strategy_evidence_package fixed_float contains lower strip
package_counts_example = package_counts outcomes [] "carry" refl

max_observed_loss_bounds_example :
    let top = compute_max_observed_loss_usd outcomes in
    (pos 0 ≼ top) × All (CountsLosses top) outcomes
unfolding fixed_float
max_observed_loss_bounds_example =
    max_observed_loss_bounds fixed-IsOrdered outcomes (refl, (refl, (refl, tt)))

abbrev evaluation : List RolloutReasonCode → RolloutEvaluation ℤ
evaluation reasons = record {
  eligible_for_tiny_live = true;
  reason_codes = reasons;
  observation_count = 30;
  walk_forward_split_count = 3;
  cost_adjusted_expectancy_usd = pos 20000;
  failure_rate = pos 0;
  max_observed_loss_usd = pos 5000;
}

abbrev evidence : PaperEvidencePackage ℤ
evidence = record {
  strategy_family = "carry";
  sample_size = 30;
  closed_count = 30;
  failed_count = 0;
  blocked_count = 0;
  net_pnl_usd = pos 600000;
  hit_rate = pos 10000;
  max_drawdown_usd = pos 5000;
  total_notional_usd = pos 0;
  gross_pnl_usd = pos 0;
  total_fees_usd = pos 0;
  total_slippage_usd = pos 0;
  stale_signal_count = 0;
  missed_fill_count = 0;
  partial_fill_count = 0;
  cost_model_modes = [];
  failure_reasons = [];
  approved_for_review = false;
}

readiness_iff_example :
    Reviewable "carry" (evaluation []) evidence true (some "ticket-7") (pos 200000) (pos 50000)
unfolding generate_tiny_live_readiness_artifact fixed_float strip reject_ready_contradictions
    artifact_of readiness_reasons flags findings_of check_ready checklist_of missing_codes contains
readiness_iff_example =
    (readiness_iff "carry" (evaluation []) evidence true (some "ticket-7") (pos 200000) (pos 50000)
        refl).0.0
      refl

readiness_total_example :
    generate_tiny_live_readiness_artifact "carry"
      (evaluation [])
      evidence
      false
      none
      (pos 200000)
      (pos 50000)
    ≡ ok (made "carry" (evaluation []) evidence false none (pos 200000) (pos 50000))
unfolding fixed_float strip
readiness_total_example =
    readiness_total "carry" (evaluation []) evidence false none (pos 200000) (pos 50000)
      fixed-IsOrdered (record { named = refl; notional = refl; daily_loss = refl }) (λ e. refl)
