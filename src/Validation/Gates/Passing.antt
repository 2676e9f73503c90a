-- ===== src/Validation/Gates/Passing.antt =====
-- When the gate passes.
use crypto_research_agent.Common.{
  ℕ, suc, ◌<◌, ◌≤◌, ◌≡◌, refl, true, false, List, [], ◌∷◌, arith, any, count_if, length, flags, ok,
  ◌↔◌, All, inl, inr, Outcome-cases,
}
use crypto_research_agent.Common.Int.{ℤ, pos, ◌≤ℤ◌}
use crypto_research_agent.Common.Float.{lt-eq-not-le, Float, IsOrdered, IsRounding, IsFinite, ◌≺◌}
use crypto_research_agent.Validation.Gates.{
  WalkForwardGateResult, require_finite_float, require_all_finite, gate_result,
  evaluate_walk_forward_gate,
}

module _ {F : Type 0} ⦃f : Float F⦄ (laws : IsOrdered F) (rounding : IsRounding F) where
  open f use {nought, decimal, le, lt, ratio}

  require_all_finite-ok :
      (xs : List F) {ys : List F} → require_all_finite xs ≡ ok ys → (ys ≡ xs) × All IsFinite xs
  unfolding require_all_finite require_finite_float
  require_all_finite-ok [] e = (ground arith, tt)
  require_all_finite-ok (x ∷ xs) {ys} e = elim (Outcome-cases (require_all_finite xs)) [
    | inl (zs, done) ↦ ground (arith, require_all_finite-ok xs {ys = zs} done)
    | inr (bad, failed) ↦ ground arith
  ]

  above_floor :
      (floor : F) (xs : List F)
      → IsFinite floor
      → All IsFinite xs
      → (any (λ x. le x floor) xs ≡ false) ↔ All (λ x. floor ≺ x) xs
  above_floor floor [] p h = (λ _. tt, λ _. refl)
  above_floor floor (x ∷ xs) p h =
      grind (arith, lt-eq-not-le laws floor x p h.0, above_floor floor xs p h.1)

  count_if-All :
      (floor : F) (xs : List F)
      → All (λ x. floor ≺ x) xs
      → count_if (λ x. lt floor x) xs ≡ length xs
  count_if-All floor [] h = refl
  count_if-All floor (x ∷ xs) h = ground (arith, count_if-All floor xs h.1)

  gate_result-passed_iff :
      (xs : List F) (splits : ℕ) (rate floor : F)
      → All IsFinite xs
      → IsFinite floor
      → 0 < splits
      → lt (decimal 1 0) rate ≡ false
      → ((gate_result xs splits rate floor).passed ≡ true)
        ↔ ((splits ≤ length xs) × All (λ x. floor ≺ x) xs)
  unfolding gate_result flags
  gate_result-passed_iff xs splits rate floor h p q top =
      ground
        (arith, above_floor floor xs p h, count_if-All floor xs, rounding.ratio_self (length xs))

  -- If the arguments are accepted, the gate passes exactly when there are enough splits and each
  -- split's expectancy is above the floor: the required pass rate decides nothing further.
  pub gate_passes_iff :
      (xs : List F) (min_splits : ℤ) (rate floor : F) {r : WalkForwardGateResult F}
      → evaluate_walk_forward_gate xs min_splits rate floor ≡ ok r
      → (r.passed ≡ true) ↔ ((min_splits ≤ℤ pos (length xs)) × All (λ x. floor ≺ x) xs)
  unfolding evaluate_walk_forward_gate
  gate_passes_iff xs (pos (suc n)) rate floor e = elim (Outcome-cases (require_all_finite xs)) [
    | inl (zs, done) ↦
        let (same, finite) = require_all_finite-ok xs done in
        ground (arith, gate_result-passed_iff xs (suc n) rate floor finite)
    | inr (bad, failed) ↦ ground arith
  ]
  gate_passes_iff xs _ rate floor e = ground arith
