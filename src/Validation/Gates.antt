-- ===== src/Validation/Gates.antt =====
-- src/crypto_alpha_agent/validation/gates.py: the walk-forward gate on the expectancies of the splits.
pub mod Passing
use crypto_research_agent.Common.{
  ℕ, zero, suc, String, append_text, Bool, true, false, not, ◌||◌, List, [], ◌∷◌, ltb,
  if◌then◌else◌, is_empty, any, count_if, length, flags, Outcome, ok, err, value_error, ◌>>=◌, ◌>>◌,
  raise_if, ◌==◌,
}
use crypto_research_agent.Common.Int.{ℤ, pos}
use crypto_research_agent.Common.Float.{Float}

pub record WalkForwardGateResult (F : Type 0) : Type 0 where
  pub split_count : ℕ
  pub pass_count : ℕ
  pub pass_rate : F
  pub min_splits : ℕ
  pub min_pass_rate : F
  pub passed : Bool
  pub blocked_reasons : List String

unfoldable pub require_positive_int : String → ℤ → Outcome ℕ
require_positive_int name (pos (suc n)) = ok (suc n)
require_positive_int name _ = err (value_error (append_text name " must be a positive integer"))

module _ {F : Type 0} ⦃f : Float F⦄ where
  open f use {nought, decimal, is_finite, le, lt, ratio}

  unfoldable pub require_finite_float : String → F → Outcome F
  require_finite_float name value =
      if not (is_finite value)
      then err (value_error (append_text name " must be finite"))
      else ok value

  unfoldable pub require_pass_rate : String → F → Outcome F
  unfolding require_finite_float
  require_pass_rate name value = do
    value ← require_finite_float name value
    raise_if (le value nought || lt (decimal 1 0) value)
        (value_error (append_text name " must be greater than 0 and less than or equal to 1"))
    ok value

  -- the list of checked expectancies
  unfoldable pub require_all_finite : List F → Outcome (List F)
  unfolding require_finite_float
  require_all_finite [] = ok []
  require_all_finite (x ∷ xs) =
      let rest = require_all_finite xs in
      do y ← require_finite_float "split_expectancy" x; ys ← rest; ok (y ∷ ys)

  -- the result for checked arguments
  unfoldable pub gate_result : List F → ℕ → F → F → WalkForwardGateResult F
  gate_result expectancies min_splits min_pass_rate floor =
      let split_count = length expectancies in
      let pass_count = count_if (λ x. lt floor x) expectancies in
      let pass_rate = if split_count == 0 then nought else ratio pass_count split_count in
      let blocked = flags (
        (ltb split_count min_splits, "insufficient_walk_forward_splits")
        ∷ (
          any (λ x. le x floor) expectancies || lt pass_rate min_pass_rate,
          "unstable_walk_forward_performance",
        )
        ∷ []) in
      record {
        split_count = split_count;
        pass_count = pass_count;
        pass_rate = pass_rate;
        min_splits = min_splits;
        min_pass_rate = min_pass_rate;
        passed = is_empty blocked;
        blocked_reasons = blocked;
      }

  unfoldable pub evaluate_walk_forward_gate : List F → ℤ → F → F → Outcome (WalkForwardGateResult F)
  unfolding require_positive_int require_pass_rate require_all_finite gate_result
  evaluate_walk_forward_gate split_expectancies min_splits min_pass_rate expectancy_floor = do
    splits ← require_positive_int "min_splits" min_splits
    rate ← require_pass_rate "min_pass_rate" min_pass_rate
    floor ← require_finite_float "expectancy_floor" expectancy_floor
    expectancies ← require_all_finite split_expectancies
    ok (gate_result expectancies splits rate floor)
