-- ===== src/Risk/Rollout/Package.antt =====
-- What the figures of an evidence package say of the outcomes that it was built from.
use crypto_research_agent.Common.{
  ◌+◌, ◌≤◌, ◌≡◌, refl, String, Bool, true, false, ◌||◌, List, [], ◌∷◌, arith, inl, inr, keep,
  count_if, All, length, contains, contains-All, string_eq, ◌=?◌, ok, Outcome-cases, Bool-cases,
  if◌then◌else◌,
}
use mathlib.Core.Bool.{false≢true}
use crypto_research_agent.Common.Float.{Float, IsOrdered, IsFinite, ◌≼◌, ◌≺◌, larger, le-larger}
use crypto_research_agent.Evidence.Models.{PaperSimulationOutcome, ValidationEvidence}
use crypto_research_agent.Risk.Rollout.{
  PaperTradeObservation, StrategyEvidencePackage, outcome_status, closed_outcome_statuses,
  failed_outcome_statuses, failed_observation_statuses, loss_evidence_statuses,
  paper_outcomes_to_rollout_observations, loss_step, max_loss_from, compute_max_observed_loss_usd,
}
use crypto_research_agent.Risk.Rollout.Building.{
  is_closed, is_failed, build_strategy_evidence_package,
}

-- A status is closed, or failed or rejected, or blocked, or none of them, and never two.
statuses_apart :
    (s : String)
    → (contains s closed_outcome_statuses ≡ true
        → (contains s failed_outcome_statuses ≡ false) × ((s =? "blocked") ≡ false))
      × (contains s failed_observation_statuses ≡ true → (s =? "blocked") ≡ false)
      × (contains s failed_outcome_statuses
          ≡ (contains s failed_observation_statuses || (s =? "blocked")))
unfolding contains
statuses_apart s = (
  contains-All (λ t. (contains t failed_outcome_statuses ≡ false) × ((t =? "blocked") ≡ false))
      closed_outcome_statuses ((refl, refl), ((refl, refl), ((refl, refl), tt))) s,
  contains-All (λ t. (t =? "blocked") ≡ false) failed_observation_statuses (refl, (refl, tt)) s,
  ground arith,
)

module _ {F : Type 0} ⦃f : Float F⦄ where
  open f use {nought, lt, abs, sub}

  abbrev is_blocked : PaperSimulationOutcome F → Bool
  is_blocked o = outcome_status o =? "blocked"

  observations_count :
      (os : List (PaperSimulationOutcome F)) {obs : List (PaperTradeObservation F)}
      → paper_outcomes_to_rollout_observations os true ≡ ok obs
      → length obs + count_if is_blocked os
        ≡ length (keep is_closed os) + length (keep is_failed os)
  unfolding paper_outcomes_to_rollout_observations
  observations_count [] e = ground arith
  observations_count (o ∷ os) {obs} e =
      elim (Outcome-cases (paper_outcomes_to_rollout_observations os true)) [
        | inl (rest, done) ↦
            ground
              (arith, observations_count os {obs = rest} done, statuses_apart (outcome_status o))
        | inr (bad, failed) ↦ ground (arith, statuses_apart (outcome_status o))
      ]

  blocked-le-failed :
      (os : List (PaperSimulationOutcome F)) → count_if is_blocked os ≤ length (keep is_failed os)
  blocked-le-failed [] = omega arith
  blocked-le-failed (o ∷ os) =
      ground (arith, blocked-le-failed os, statuses_apart (outcome_status o))

  closed-add-failed-le :
      (os : List (PaperSimulationOutcome F))
      → length (keep is_closed os) + length (keep is_failed os) ≤ length os
  closed-add-failed-le [] = omega arith
  closed-add-failed-le (o ∷ os) =
      ground (arith, closed-add-failed-le os, statuses_apart (outcome_status o))

  -- The counts of a package account for the outcomes: every closed or failed outcome is an observation
  -- of the rollout unless it was blocked, and none is counted as both.
  pub package_counts :
      (os : List (PaperSimulationOutcome F)) (es : List (ValidationEvidence F)) (family : String)
      {p : StrategyEvidencePackage F}
      → build_strategy_evidence_package os es family ≡ ok p
      → (p.rollout_observation_count + p.blocked_count ≡ p.closed_count + p.failed_count)
        × (p.blocked_count ≤ p.failed_count)
        × (p.closed_count + p.failed_count ≤ p.sample_size)
        × (p.sample_size ≡ length os)
  unfolding build_strategy_evidence_package
  package_counts os es family {p} e =
      elim (Outcome-cases (paper_outcomes_to_rollout_observations os true)) [
        | inl (obs, done) ↦ ground (
          arith,
          observations_count os {obs = obs} done,
          blocked-le-failed os,
          closed-add-failed-le os,
        )
        | inr (bad, failed) ↦ ground arith
      ]

  -- The figures of an outcome that count as losses, all at most `top`.
  pub record IsBounded (top : F) (o : PaperSimulationOutcome F) : Type 0 where
    pub drawdown : o.max_drawdown_usd ≼ top
    pub net : o.net_pnl_usd ≺ nought → abs o.net_pnl_usd ≼ top
    pub derived :
        sub (sub o.gross_pnl_usd o.fees_usd) o.slippage_usd ≺ nought
        → abs (sub (sub o.gross_pnl_usd o.fees_usd) o.slippage_usd) ≼ top

  abbrev pub CountsLosses : F → PaperSimulationOutcome F → Type 0
  CountsLosses top o = contains (outcome_status o) loss_evidence_statuses ≡ true → IsBounded top o

  module _ (laws : IsOrdered F) where
    IsBounded-le :
        (low top : F) (o : PaperSimulationOutcome F)
        → low ≼ top
        → CountsLosses low o
        → CountsLosses top o
    IsBounded-le low top o up b status =
        let at = b status in
        record {
          drawdown = laws.le_trans _ _ _ at.drawdown up;
          net = λ h. laws.le_trans _ _ _ (at.net h) up;
          derived = λ h. laws.le_trans _ _ _ (at.derived h) up;
        }

    number_of_bound : (x y : F) → x ≼ x → y ≼ y → larger x y ≼ larger x y
    unfolding larger
    number_of_bound x y p q = ground arith

    larger_if_bounds :
        (m v : F) (b : Bool)
        → m ≼ m
        → (b ≡ true → v ≼ v)
        → let r = if b then larger m v else m in (m ≼ r) × (b ≡ true → v ≼ r) × (r ≼ r)
    larger_if_bounds m v true p q =
        let (up, in_reach) = le-larger laws m v p (q refl) in
        (up, λ _. in_reach, number_of_bound m v p (q refl))
    larger_if_bounds m v false p q = (p, λ e. absurd (false≢true e), p)

    loss_step_bounds :
        (m : F) (o : PaperSimulationOutcome F)
        → m ≼ m
        → IsFinite o.max_drawdown_usd
        → (m ≼ loss_step m o) × CountsLosses (loss_step m o) o × (loss_step m o ≼ loss_step m o)
    unfolding loss_step
    loss_step_bounds m o p q =
        let derived = sub (sub o.gross_pnl_usd o.fees_usd) o.slippage_usd in
        let (up1, top1) = le-larger laws m o.max_drawdown_usd p (laws.le_of_finite _ q) in
        let num1 = number_of_bound m o.max_drawdown_usd p (laws.le_of_finite _ q) in
        let (up2, top2, num2) =
          larger_if_bounds _ (abs o.net_pnl_usd) (lt o.net_pnl_usd nought) num1
            (laws.abs_number o.net_pnl_usd) in
        let (up3, top3, num3) =
          larger_if_bounds _ (abs derived) (lt derived nought) num2 (laws.abs_number derived) in
        elim (Bool-cases (contains (outcome_status o) loss_evidence_statuses)) [
          | inl counted ↦ rw counted (
            laws.le_trans _ _ _ up1 (laws.le_trans _ _ _ up2 up3),
            λ _. record {
              drawdown = laws.le_trans _ _ _ top1 (laws.le_trans _ _ _ up2 up3);
              net = λ h. laws.le_trans _ _ _ (top2 h) up3;
              derived = top3;
            },
            num3,
          )
          | inr other ↦ rw other (p, λ e. absurd (false≢true e), p)
        ]

    max_loss_from_bounds :
        (m : F) (os : List (PaperSimulationOutcome F))
        → m ≼ m
        → All (λ o. IsFinite o.max_drawdown_usd) os
        → (m ≼ max_loss_from m os) × All (CountsLosses (max_loss_from m os)) os
    unfolding max_loss_from
    max_loss_from_bounds m [] p h = (p, tt)
    max_loss_from_bounds m (o ∷ os) p h =
        let (up, here, num) = loss_step_bounds m o p h.0 in
        let (on, rest) = max_loss_from_bounds (loss_step m o) os num h.1 in
        (laws.le_trans _ _ _ up on, (IsBounded-le _ _ o on here, rest))

    -- The observed loss is not negative, and no loss of a counted outcome is above it: neither a
    -- drawdown, nor a negative net result, nor one that the costs make negative.
    pub max_observed_loss_bounds :
        (os : List (PaperSimulationOutcome F))
        → All (λ o. IsFinite o.max_drawdown_usd) os
        → let top = compute_max_observed_loss_usd os in (nought ≼ top) × All (CountsLosses top) os
    unfolding compute_max_observed_loss_usd
    max_observed_loss_bounds os h =
        max_loss_from_bounds nought os (laws.le_of_finite nought laws.nought_finite) h
