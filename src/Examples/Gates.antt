-- ===== src/Examples/Gates.antt =====
-- The walk-forward windows and gate, and the gate before paper trading, at small inputs.
use crypto_research_agent.Common.{
  ℕ, ◌+◌, ◌-◌, ◌/◌, ◌≡◌, refl, true, some, List, [], ◌∷◌, arith, length, All, ◌↔◌, ok, ◌>>=◌, is_ok,
}
use crypto_research_agent.Common.Int.{ℤ, pos, ◌≤ℤ◌, ◌+ℤ◌}
use crypto_research_agent.Common.Float.{◌≺◌}
use crypto_research_agent.Common.Float.Fixed.{fixed_float, fixed-IsOrdered, fixed-IsRounding}
use crypto_research_agent.Validation.WalkForward.{
  generate_walk_forward_windows, split_sequence, splits_of,
}
use crypto_research_agent.Validation.WalkForward.Layout.{layout}
use crypto_research_agent.Validation.WalkForward.Windows.{
  generate-layout, generate_ok_iff, split_sequence-generated, HasSizes,
}
use crypto_research_agent.Validation.Gates.{evaluate_walk_forward_gate}
use crypto_research_agent.Validation.Gates.Passing.{gate_passes_iff}
use crypto_research_agent.Risk.PaperGate.{
  PaperEligibilityPolicy, ValidationEvidence, PaperEvidence, CharterGuardDecision,
  evaluate_paper_eligibility,
}
use crypto_research_agent.Risk.PaperGate.Eligibility.{
  IsAllowed, evaluate_paper_eligibility-allowed_iff,
}
use crypto_research_agent.Common.{flags}
use crypto_research_agent.Risk.PaperGate.{coerce_validation}
use crypto_research_agent.Risk.PaperGate.{check_paper}
use crypto_research_agent.Risk.PaperGate.{eligibility_reasons}
use crypto_research_agent.Risk.PaperGate.{historical_validation_is_blocked}
use crypto_research_agent.Common.Dedupe.{dedupe}
use crypto_research_agent.Common.{contains}
use crypto_research_agent.Common.{lower}
use crypto_research_agent.Common.{strip}
use crypto_research_agent.Risk.PaperGate.{paper_has_failed}
use crypto_research_agent.Risk.PaperGate.{paper_failure_reasons_of}

generate-layout_example :
    generate_walk_forward_windows (pos 10) (pos 4) (pos 2) (some (pos 2))
    ≡ ok (layout 4 2 2 ((10 - (4 + 2)) / 2 + 1) 0 0)
generate-layout_example =
    generate-layout 10 4 2 2 (omega arith) (omega arith) (omega arith) (omega arith)

generate_ok_iff_example :
    (is_ok (generate_walk_forward_windows (pos 10) (pos 4) (pos 2) (some (pos 3))) ≡ true)
    ↔ ((pos 1 ≤ℤ pos 4) × (pos 1 ≤ℤ pos 2) × (pos 1 ≤ℤ pos 3) × (pos 4 +ℤ pos 2 ≤ℤ pos 10))
generate_ok_iff_example = generate_ok_iff (pos 10) (pos 4) (pos 2) (pos 3)

abbrev bars : List ℕ
bars = 3 ∷ 1 ∷ 4 ∷ 1 ∷ 5 ∷ 9 ∷ 2 ∷ []

split_sequence-generated_example :
    let splits = splits_of bars (layout 3 2 2 ((length bars - (3 + 2)) / 2 + 1) 0 0) in
    ((generate_walk_forward_windows (pos (length bars)) (pos 3) (pos 2) (some (pos 2))
        >>= split_sequence bars)
      ≡ ok splits)
    × (length splits ≡ (length bars - (3 + 2)) / 2 + 1)
    × All (HasSizes 3 2) splits
split_sequence-generated_example =
    split_sequence-generated bars 3 2 2 (omega arith) (omega arith) (omega arith) (omega arith)

gate_passes_iff_example : (pos 2 ≤ℤ pos 2) × All (λ x. pos 0 ≺ x) (pos 500 ∷ pos 300 ∷ [])
unfolding evaluate_walk_forward_gate fixed_float flags
gate_passes_iff_example =
    (gate_passes_iff fixed-IsOrdered fixed-IsRounding (pos 500 ∷ pos 300 ∷ []) (pos 2) (pos 10000)
        (pos 0) refl).0
      refl

abbrev policy : PaperEligibilityPolicy ℤ
policy = record {
  min_historical_trades = 5;
  min_fee_adjusted_expectancy = pos 0;
  max_drawdown = pos 2000;
}

abbrev validation : ValidationEvidence ℤ
validation = record {
  strategy_family = "carry";
  status = some " Passed ";
  approved = some true;
  blocked_reasons = [];
  trade_count = 8;
  fee_adjusted_expectancy = some (pos 40);
  max_drawdown = some (pos 900);
}

abbrev charter : CharterGuardDecision
charter = record { approved = true; reason_codes = [] }

abbrev traded : PaperEvidence ℤ
traded = record {
  strategy_family = "carry";
  failed_count = 0;
  net_pnl_usd = pos 20000;
  failure_reasons = [];
}

evaluate_paper_eligibility-allowed_iff_example : IsAllowed policy validation charter (some traded)
unfolding evaluate_paper_eligibility fixed_float coerce_validation check_paper eligibility_reasons
    flags historical_validation_is_blocked dedupe contains lower strip paper_has_failed
    paper_failure_reasons_of
evaluate_paper_eligibility-allowed_iff_example =
    (evaluate_paper_eligibility-allowed_iff fixed-IsOrdered policy validation charter (some traded)
        refl refl refl).0.0
      refl
