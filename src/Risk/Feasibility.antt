-- ===== src/Risk/Feasibility.antt =====
-- src/crypto_alpha_agent/risk/feasibility.py: whether an opportunity is feasible for the capital there
-- is, and a score of it.
pub mod Scoring
use crypto_research_agent.Common.{
  ℕ, zero, suc, ◌-◌, ◌*◌, String, Bool, true, false, not, ◌&&◌, ◌||◌, Option, none, some, List, [],
  ◌∷◌, if◌then◌else◌, ltb, is_none, is_empty, length, flags, Outcome, ok, err, value_error,
  overflow_error, validation_error, ◌>>=◌, ◌>>◌, raise_if,
}
use crypto_research_agent.Common.Int.{ℤ, pos, negsuc}
use crypto_research_agent.Common.Float.{Float, larger}

pub data DependencyLevel : Type 0 where
  none_needed : DependencyLevel
  low : DependencyLevel
  medium : DependencyLevel
  high : DependencyLevel

-- the arguments of `score_feasibility`, less the action mode, which it passes on
pub record FeasibilityInput (F : Type 0) : Type 0 where
  pub capital_required_usd : F
  pub current_capital_usd : F
  pub expected_net_pnl_usd : F
  pub max_downside_usd : Option F
  pub repeatable : Bool
  pub speed_dependency : DependencyLevel
  pub rpc_dependency : DependencyLevel
  pub min_net_pnl_usd : F
  pub min_net_pnl_ratio : F
  pub max_allowed_downside_usd : F
  pub allow_high_speed : Bool
  pub allow_high_rpc : Bool
  pub require_repeatable : Bool

pub record FeasibilityScore (F : Type 0) : Type 0 where
  pub approved : Bool
  pub score : ℕ
  pub reasons : List String
  pub capital_required_usd : F
  pub current_capital_usd : F
  pub expected_net_pnl_usd : F
  pub max_downside_usd : Option F
  pub repeatable : Bool
  pub speed_dependency : DependencyLevel
  pub rpc_dependency : DependencyLevel

abbrev pub is_high : DependencyLevel → Bool
is_high high = true
is_high _ = false

-- `max(1, min(100, n))`
abbrev pub clamp_score : ℤ → ℕ
clamp_score (negsuc n) = 1
clamp_score (pos zero) = 1
clamp_score (pos (suc n)) = if ltb (suc n) 100 then suc n else 100

module _ {F : Type 0} ⦃f : Float F⦄ where
  open f use {nought, decimal, is_finite, le, lt, same, sub, mul, div, round_int}

  abbrev pub exceeds : Option F → F → Bool
  exceeds none limit = false
  exceeds (some x) limit = lt limit x

  -- the reasons under their conditions
  abbrev pub feasibility_reasons : FeasibilityInput F → List (Bool × String)
  feasibility_reasons i =
      (lt i.current_capital_usd i.capital_required_usd, "capital_above_budget")
      ∷ (is_high i.speed_dependency && not i.allow_high_speed, "speed_dependency_too_high")
      ∷ (is_high i.rpc_dependency && not i.allow_high_rpc, "rpc_dependency_too_high")
      ∷ (
        lt i.expected_net_pnl_usd
            (larger i.min_net_pnl_usd (mul i.capital_required_usd i.min_net_pnl_ratio)),
        "net_pnl_below_minimum",
      )
      ∷ (i.require_repeatable && not i.repeatable, "opportunity_not_repeatable")
      ∷ (is_none i.max_downside_usd, "downside_unbounded")
      ∷ (exceeds i.max_downside_usd i.max_allowed_downside_usd, "downside_above_limit")
      ∷ []

  -- `round(x)`, which raises on NaN and the infinities
  unfoldable pub rounded : F → Outcome ℤ
  rounded x = do
    raise_if (not (same x x)) (value_error "cannot convert float NaN to integer")
    raise_if (not (is_finite x)) overflow_error
    ok (round_int x)

  -- `if max_downside_usd` and the ratio of reward to risk below one
  abbrev pub is_risky : F → Option F → Bool
  is_risky expected none = false
  is_risky expected (some downside) =
      not (same downside nought) && lt (div expected downside) (decimal 1 0)

  -- `100 - capital_utilization * 20 - risk_penalty`, with a current capital that is not zero
  unfoldable pub feasibility_figure : FeasibilityInput F → F
  feasibility_figure i =
      sub
        (sub (decimal 100 0)
          (mul (div i.capital_required_usd i.current_capital_usd) (decimal 20 0)))
        (decimal (if is_risky i.expected_net_pnl_usd i.max_downside_usd then 10 else 0) 0)

  -- `_calculate_score`; without a capital the figure is an int
  unfoldable pub calculate_score : List String → FeasibilityInput F → Outcome ℕ
  calculate_score reasons i =
      let figure = feasibility_figure i in
      let risky = is_risky i.expected_net_pnl_usd i.max_downside_usd in
      if not (is_empty reasons)
      then ok (60 - length reasons * 15)
      else if same i.current_capital_usd nought
      then ok (clamp_score (pos (if risky then 70 else 80)))
      else (rounded figure >>= λ z. ok (clamp_score z))

  abbrev pub is_optional_ge_zero : Option F → Bool
  is_optional_ge_zero none = true
  is_optional_ge_zero (some x) = le nought x

  -- the constraints on the fields of a `FeasibilityScore`
  abbrev pub accepts_score : FeasibilityScore F → Bool
  accepts_score s =
      not (ltb 100 s.score)
      && le nought s.capital_required_usd
      && le nought s.current_capital_usd
      && is_optional_ge_zero s.max_downside_usd

  unfoldable pub check_score : FeasibilityScore F → Outcome (FeasibilityScore F)
  check_score s = do raise_if (not (accepts_score s)) (validation_error "FeasibilityScore"); ok s

  unfoldable pub score_of : FeasibilityInput F → List String → ℕ → FeasibilityScore F
  score_of i reasons score = record {
    approved = is_empty reasons;
    score = score;
    reasons = reasons;
    capital_required_usd = i.capital_required_usd;
    current_capital_usd = i.current_capital_usd;
    expected_net_pnl_usd = i.expected_net_pnl_usd;
    max_downside_usd = i.max_downside_usd;
    repeatable = i.repeatable;
    speed_dependency = i.speed_dependency;
    rpc_dependency = i.rpc_dependency;
  }

  unfoldable pub score_feasibility : FeasibilityInput F → Outcome (FeasibilityScore F)
  score_feasibility i =
      let reasons = flags (feasibility_reasons i) in
      do score ← calculate_score reasons i; check_score (score_of i reasons score)
