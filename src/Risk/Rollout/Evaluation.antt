-- ===== src/Risk/Rollout/Evaluation.antt =====
-- When `evaluate_rollout` finds a strategy eligible, stated on the evidence itself.
use crypto_research_agent.Common.{
  ◌≤◌, ◌<◌, ◌≡◌, refl, String, true, false, List, [], ◌∷◌, map, arith, ltb, ◌↔◌, is_empty, any, All,
  length, flags-empty_iff, contains, IsDistinct, string_eq, ok,
}
use crypto_research_agent.Common.Float.{lt-eq-not-le, Float, IsOrdered, IsFinite, ◌≼◌, ◌≺◌}
use crypto_research_agent.Risk.Rollout.{
  RolloutPolicy, PaperTradeObservation, WalkForwardSplit, RolloutEvaluation, has_duplicate_from,
  has_duplicate_ids, cost_adjusted_expectancy, failure_rate, rollout_reason_codes, evaluate_rollout,
}

fresh_iff :
    (x : String) (seen xs : List String)
    → All (λ y. contains y (x ∷ seen) ≡ false) xs
      ↔ ((contains x xs ≡ false) × All (λ y. contains y seen ≡ false) xs)
unfolding contains
fresh_iff x seen [] = (λ _. (refl, tt), λ _. tt)
fresh_iff x seen (y ∷ ys) =
    ground (arith, fresh_iff x seen ys, string_eq.beq_iff x y, string_eq.beq_iff y x)

has_duplicate_from_iff :
    (xs seen : List String)
    → (has_duplicate_from seen xs ≡ false) ↔ (IsDistinct xs × All (λ y. contains y seen ≡ false) xs)
unfolding has_duplicate_from
has_duplicate_from_iff [] seen = (λ _. (tt, tt), λ _. refl)
has_duplicate_from_iff (x ∷ xs) seen =
    ground (arith, has_duplicate_from_iff xs (x ∷ seen), fresh_iff x seen xs)

never_in_empty : (xs : List String) → All (λ y. contains y [] ≡ false) xs
unfolding contains
never_in_empty [] = tt
never_in_empty (x ∷ xs) = (refl, never_in_empty xs)

-- The search for a repeated id succeeds exactly on a list with one.
pub has_duplicate_ids_iff : (xs : List String) → (has_duplicate_ids xs ≡ false) ↔ IsDistinct xs
unfolding has_duplicate_ids
has_duplicate_ids_iff xs = (
  λ e. ((has_duplicate_from_iff xs []).0 e).0,
  λ d. (has_duplicate_from_iff xs []).1 (d, never_in_empty xs),
)

module _ {F : Type 0} ⦃f : Float F⦄ where
  open f use {nought, le, lt}

  -- What the gates ask of the evidence, without the tests of the code.
  pub record Eligible (policy : RolloutPolicy F) (observations : List (PaperTradeObservation F))
      (splits : List (WalkForwardSplit F)) (max_loss : F) : Type 0 where
    pub sample : policy.min_paper_trade_count ≤ length observations
    pub windows : policy.min_walk_forward_splits ≤ length splits
    pub trades_distinct : IsDistinct (map (λ o. o.trade_id) observations)
    pub splits_distinct : IsDistinct (map (λ s. s.split_id) splits)
    pub profitable : nought ≺ cost_adjusted_expectancy observations
    pub reliable : failure_rate observations ≼ policy.max_failure_rate
    pub stable :
        All (λ s. policy.min_walk_forward_expectancy_usd ≺ s.cost_adjusted_expectancy_usd) splits
    pub untouched : All (λ o. o.violates_override ≡ false) observations
    pub bounded : max_loss ≼ policy.max_loss_budget_usd

  -- The fields that pydantic holds positive or finite.
  pub record IsChecked (policy : RolloutPolicy F) (splits : List (WalkForwardSplit F))
      : Type 0 where
    pub count : 0 < policy.min_paper_trade_count
    pub rate : IsFinite policy.max_failure_rate
    pub floor : IsFinite policy.min_walk_forward_expectancy_usd
    pub budget : IsFinite policy.max_loss_budget_usd
    pub expectancies : All (λ s. IsFinite s.cost_adjusted_expectancy_usd) splits

  no_override :
      (os : List (PaperTradeObservation F))
      → (any (λ o. o.violates_override) os ≡ false) ↔ All (λ o. o.violates_override ≡ false) os
  no_override [] = (λ _. tt, λ _. refl)
  no_override (o ∷ os) = ground (arith, no_override os)

  module _ (laws : IsOrdered F) where
    stable_splits :
        (floor : F) (ss : List (WalkForwardSplit F))
        → IsFinite floor
        → All (λ s. IsFinite s.cost_adjusted_expectancy_usd) ss
        → (any (λ s. le s.cost_adjusted_expectancy_usd floor) ss ≡ false)
          ↔ All (λ s. floor ≺ s.cost_adjusted_expectancy_usd) ss
    stable_splits floor [] p h = (λ _. tt, λ _. refl)
    stable_splits floor (s ∷ ss) p h = ground (
      arith,
      lt-eq-not-le laws floor s.cost_adjusted_expectancy_usd p h.0,
      stable_splits floor ss p h.1,
    )

    not_above : (x y : F) → IsFinite x → IsFinite y → (lt y x ≡ false) ↔ (x ≼ y)
    not_above x y p q = ground (arith, lt-eq-not-le laws y x q p)

    not_at_most : (x y : F) → IsFinite x → IsFinite y → (le x y ≡ false) ↔ (y ≺ x)
    not_at_most x y p q = ground (arith, lt-eq-not-le laws y x q p)

    module _ (policy : RolloutPolicy F) (os : List (PaperTradeObservation F))
        (ss : List (WalkForwardSplit F)) (max_loss : F) where
      reasons_empty_iff :
          IsChecked policy ss
          → IsFinite (cost_adjusted_expectancy os)
          → IsFinite (failure_rate os)
          → IsFinite max_loss
          → (is_empty (rollout_reason_codes policy os ss max_loss) ≡ true)
            ↔ Eligible policy os ss max_loss
      unfolding rollout_reason_codes
      reasons_empty_iff k pe pr pl = (
        λ e.
            let (c0, (c1, (c2, (c3, (c4, (c5, (c6, (c7, (c8, _))))))))) = (flags-empty_iff _).0 e in
            let enough : policy.min_paper_trade_count ≤ length os = ground arith in
            let some_trade : ltb 0 (length os) ≡ true = ground (arith, k.count) in
            record {
              sample = enough;
              windows = ground arith;
              trades_distinct = (has_duplicate_ids_iff _).0 c2;
              splits_distinct = (has_duplicate_ids_iff _).0 c3;
              profitable = (not_at_most _ nought pe laws.nought_finite).0 (ground arith);
              reliable = (not_above _ policy.max_failure_rate pr k.rate).0 (ground arith);
              stable = (stable_splits _ ss k.floor k.expectancies).0 c6;
              untouched = (no_override os).0 c7;
              bounded = (not_above max_loss _ pl k.budget).0 c8;
            },
        λ h.
            let some_trade : ltb 0 (length os) ≡ true = ground (arith, k.count) in
            (flags-empty_iff _).1 (
              ground arith,
              (
                ground arith,
                (
                  (has_duplicate_ids_iff _).1 h.trades_distinct,
                  (
                    (has_duplicate_ids_iff _).1 h.splits_distinct,
                    (
                      ground (arith, (not_at_most _ nought pe laws.nought_finite).1 h.profitable),
                      (
                        ground
                            (arith, (not_above _ policy.max_failure_rate pr k.rate).1 h.reliable),
                        (
                          (stable_splits _ ss k.floor k.expectancies).1 h.stable,
                          (
                            (no_override os).1 h.untouched,
                            ((not_above max_loss _ pl k.budget).1 h.bounded, tt),
                          ),
                        ),
                      ),
                    ),
                  ),
                ),
              ),
            ),
      )

      -- An evaluation that is returned finds the strategy eligible exactly when the evidence meets
      -- every gate, and then, and only then, it names no reason.
      pub evaluate_rollout-Eligible_iff :
          {ev : RolloutEvaluation F}
          → IsChecked policy ss
          → evaluate_rollout policy os ss max_loss ≡ ok ev
          → ((ev.eligible_for_tiny_live ≡ true) ↔ Eligible policy os ss max_loss)
            × ((ev.eligible_for_tiny_live ≡ true) ↔ (ev.reason_codes ≡ []))
      unfolding evaluate_rollout
      evaluate_rollout-Eligible_iff k e = ground (arith, reasons_empty_iff k)
