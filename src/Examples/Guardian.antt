-- ===== src/Examples/Guardian.antt =====
-- The guardian at a paper trade within its limits, and at a live one.
use crypto_research_agent.Common.{◌≡◌, refl, true, false, none, [], ◌∷◌, IsDistinct, ◌↔◌}
use crypto_research_agent.Common.Int.{ℤ, pos}
use crypto_research_agent.Common.Float.Fixed.{fixed_float, fixed-IsOrdered}
use crypto_research_agent.Risk.Guardian.{
  ActionMode, risk_reason_eq, paper, gated_live, RiskPolicy, RiskContext, evaluate, gate_reasons,
  live_execution_disabled_by_charter,
}
use crypto_research_agent.Risk.Guardian.Decision.{
  Checked, Within, PaperScoped, evaluate-permits_iff, evaluate-gated_live,
}
use crypto_research_agent.Risk.Guardian.Reasons.{evaluate-IsDistinct}
use crypto_research_agent.Risk.Guardian.{ActionMode-discrete}
use crypto_research_agent.Common.{flags}
use crypto_research_agent.Common.{lower}
use crypto_research_agent.Common.{strip}
use crypto_research_agent.Common.{contains}
use crypto_research_agent.Common.{is_subset}

abbrev policy : RiskPolicy ℤ
policy = record {
  max_capital_per_opportunity_usd = pos 1000000;
  max_daily_loss_usd = pos 100000;
  max_consecutive_failures = 3;
  allowed_venues = "binance" ∷ [];
}

abbrev context : ActionMode → RiskContext ℤ
context mode = record {
  opportunity_id = "o1";
  execution_mode = mode;
  venue = "binance";
  capital_required_usd = pos 500000;
  daily_realized_pnl_usd = pos 0;
  consecutive_failures = 0;
  permission_scope = record {
    venue = "binance";
    api_permissions = "read" ∷ "paper" ∷ [];
    wallet_permissions = "paper-only" ∷ [];
  };
  required_approval_id = none;
  required_approval_reference_id = none;
  manual_approval = none;
  rollout_eligible_for_tiny_live = true;
}

checked : (mode : ActionMode) → Checked policy (context mode)
unfolding fixed_float
checked mode = record { max_capital = refl; max_loss = refl; capital = refl; pnl = refl }

evaluate-permits_iff_example :
    (paper ≡ paper) × Within policy (context paper) × PaperScoped (context paper)
unfolding evaluate fixed_float ActionMode-discrete flags lower strip contains is_subset
evaluate-permits_iff_example =
    (evaluate-permits_iff fixed-IsOrdered policy (context paper) (checked paper)).0 refl

evaluate-gated_live_example :
    let decision = evaluate policy (context gated_live) in
    (decision.approved ≡ false)
    × (decision.execution_allowed ≡ false)
    × (decision.live_execution_allowed ≡ false)
    × ((decision.reason_codes ≡ live_execution_disabled_by_charter ∷ [])
        ↔ (gate_reasons policy (context gated_live) ≡ []))
evaluate-gated_live_example = evaluate-gated_live policy (context gated_live) refl

evaluate-IsDistinct_example : IsDistinct (evaluate policy (context gated_live)).reason_codes
evaluate-IsDistinct_example = evaluate-IsDistinct policy (context gated_live)
