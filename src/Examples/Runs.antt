-- ===== src/Examples/Runs.antt =====
-- The feasibility score and the lock of evidence runs at concrete inputs.
use crypto_research_agent.Common.{
  ℕ, zero, suc, ◌≡◌, ◌↔◌, ◌≤◌, refl, String, true, false, some, List, [], ◌∷◌, ok,
}
use crypto_research_agent.Common.Int.{ℤ, pos}
use crypto_research_agent.Common.Float.Fixed.{fixed_float}
use crypto_research_agent.Risk.Feasibility.{
  low, FeasibilityInput, FeasibilityScore, feasibility_figure, score_feasibility,
}
use crypto_research_agent.Risk.Feasibility.Scoring.{
  IsFeasible, score_feasibility-IsFeasible_iff, score_feasibility_total,
}
use crypto_research_agent.Pipeline.RunLock.{
  Action, enter, write_payload, exit, act, act_all, free_world,
}
use crypto_research_agent.Pipeline.RunLock.Exclusion.{act_all-exclusive}
use crypto_research_agent.Pipeline.RunLock.Progress.{act_all-acquires}
use crypto_research_agent.Common.{◌++◌}
use crypto_research_agent.Pipeline.RunLock.{acquired}
use crypto_research_agent.Risk.Feasibility.{calculate_score}
use crypto_research_agent.Common.{flags}
use crypto_research_agent.Common.Float.{larger}
use crypto_research_agent.Risk.Feasibility.{rounded}
use crypto_research_agent.Risk.Feasibility.{check_score}
use crypto_research_agent.Risk.Feasibility.{score_of}

abbrev opportunity : FeasibilityInput ℤ
opportunity = record {
  capital_required_usd = pos 500000;
  current_capital_usd = pos 1000000;
  expected_net_pnl_usd = pos 200000;
  max_downside_usd = some (pos 100000);
  repeatable = true;
  speed_dependency = low;
  rpc_dependency = low;
  min_net_pnl_usd = pos 100000;
  min_net_pnl_ratio = pos 200;
  max_allowed_downside_usd = pos 1000000;
  allow_high_speed = false;
  allow_high_rpc = false;
  require_repeatable = true;
}

abbrev scored : FeasibilityScore ℤ
scored = record {
  approved = true;
  score = 90;
  reasons = [];
  capital_required_usd = pos 500000;
  current_capital_usd = pos 1000000;
  expected_net_pnl_usd = pos 200000;
  max_downside_usd = some (pos 100000);
  repeatable = true;
  speed_dependency = low;
  rpc_dependency = low;
}

opportunity_is_scored : score_feasibility opportunity ≡ ok scored
unfolding score_feasibility calculate_score flags fixed_float larger rounded feasibility_figure
    check_score score_of
opportunity_is_scored = refl

score_feasibility-IsFeasible_iff_example :
    ((scored.approved ≡ true) ↔ IsFeasible opportunity)
    × (scored.score ≤ 100)
    × ((scored.approved ≡ true) → 1 ≤ scored.score)
    × ((scored.approved ≡ false) → scored.score ≤ 45)
score_feasibility-IsFeasible_iff_example =
    score_feasibility-IsFeasible_iff opportunity opportunity_is_scored

score_feasibility_total_example : (s : FeasibilityScore ℤ) × (score_feasibility opportunity ≡ ok s)
unfolding fixed_float feasibility_figure
score_feasibility_total_example =
    score_feasibility_total opportunity refl refl refl
      (λ _ _. record { finite = refl; comparable = refl })

abbrev run_id : ℕ → String
run_id zero = "a"
run_id (suc n) = "b"

-- The second run is refused, since the first has created the file.
abbrev actions : List Action
actions = enter 0 ∷ enter 1 ∷ write_payload 0 ∷ write_payload 1 ∷ []

abbrev first_run : ℕ
first_run = 0

act_all-exclusive_example : first_run ≡ first_run
unfolding act_all act
act_all-exclusive_example = act_all-exclusive run_id actions 0 0 refl refl

act_all-acquires_example :
    (act_all run_id (actions ++ exit 0 ∷ enter 1 ∷ write_payload 1 ∷ []) free_world).phases 1
    ≡ acquired
unfolding act_all act
act_all-acquires_example = act_all-acquires run_id actions 0 1 refl
