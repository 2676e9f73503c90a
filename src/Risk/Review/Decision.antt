-- ===== src/Risk/Review/Decision.antt =====
-- What a decision "ready_for_human_review" says of the outcomes and the evidence it was made from.
use crypto_research_agent.Common.{
  ◌≤◌, ◌≡◌, sym, String, Bool, true, false, not, Option, List, map, arith, keep, length, All,
  IsDistinct, string_eq, Outcome, Outcome-cases, ok, raise_if, raise_if-ok, bind-ok, inl, inr,
  not-eq-false,
}
use crypto_research_agent.Common.Float.{Float, IsOrdered, IsFinite, ◌≼◌, ◌≺◌, is_nonneg}
use crypto_research_agent.Evidence.Models.{PaperSimulationOutcome, ValidationEvidence}
use crypto_research_agent.Evidence.Readiness.{
  TinyLiveReadinessArtifact, is_missing, charter_max_notional_usd, charter_max_daily_loss_usd,
  generate_tiny_live_readiness_artifact,
}
use crypto_research_agent.Evidence.Readiness.Review.{readiness_iff}
use crypto_research_agent.Risk.Rollout.{
  RolloutPolicy, RolloutEvaluation, StrategyEvidencePackage, PaperTradeObservation,
  WalkForwardSplit, paper_outcomes_to_rollout_observations,
  validation_evidence_to_walk_forward_splits, evaluate_rollout, compute_max_observed_loss_usd,
}
use crypto_research_agent.Risk.Rollout.Building.{
  build_strategy_evidence_package, to_paper_evidence_package, is_closed, is_failed,
}
use crypto_research_agent.Risk.Rollout.Evaluation.{Eligible, evaluate_rollout-Eligible_iff}
use crypto_research_agent.Risk.Review.{
  ready_for_human_review, RolloutReviewArtifact, default_policy, review_artifact,
  build_rollout_review_artifact,
}

module _ {F : Type 0} ⦃f : Float F⦄ where
  open f use {nought, total}

  -- The figures of a package, as computed from the outcomes.
  pub record IsPackageOf (os : List (PaperSimulationOutcome F)) (p : StrategyEvidencePackage F)
      : Type 0 where
    pub sample : p.sample_size ≡ length os
    pub closed : p.closed_count ≡ length (keep is_closed os)
    pub failed : p.failed_count ≡ length (keep is_failed os)
    pub net : p.net_pnl_usd ≡ total (map (λ o. o.net_pnl_usd) os)
    pub loss : p.max_observed_loss_usd ≡ compute_max_observed_loss_usd os

  package_figures :
      (os : List (PaperSimulationOutcome F)) (es : List (ValidationEvidence F)) (family : String)
      {p : StrategyEvidencePackage F}
      → build_strategy_evidence_package os es family ≡ ok p
      → IsPackageOf os p
  unfolding build_strategy_evidence_package
  package_figures os es family {p} e =
      elim (Outcome-cases (paper_outcomes_to_rollout_observations os true)) [
        | inl (obs, done) ↦ ground arith
        | inr (bad, failed) ↦ ground arith
      ]

  counted_in :
      (policy : RolloutPolicy F) (obs : List (PaperTradeObservation F))
      (ss : List (WalkForwardSplit F)) (loss : F) {ev : RolloutEvaluation F}
      → evaluate_rollout policy obs ss loss ≡ ok ev
      → (ev.observation_count ≡ length obs) × (ev.walk_forward_split_count ≡ length ss)
  unfolding evaluate_rollout
  counted_in policy obs ss loss e = ground arith

  -- What a human reviewer can rely on.
  pub record IsReadyFor (os : List (PaperSimulationOutcome F)) (es : List (ValidationEvidence F))
      (human_approved : Bool) (reference : Option String) (max_notional max_daily_loss : F)
      : Type 0 where
    pub approved : human_approved ≡ true
    pub referenced : is_missing reference ≡ false
    pub closed : 30 ≤ length (keep is_closed os)
    pub none_failed : length (keep is_failed os) ≡ 0
    pub profit : nought ≺ total (map (λ o. o.net_pnl_usd) os)
    pub splits : 3 ≤ length (validation_evidence_to_walk_forward_splits es)
    pub stable :
        All
          (λ s. nought ≺ s.cost_adjusted_expectancy_usd)
          (validation_evidence_to_walk_forward_splits es)
    pub split_ids :
        IsDistinct (map (λ s. s.split_id) (validation_evidence_to_walk_forward_splits es))
    pub loss : compute_max_observed_loss_usd os ≼ max_daily_loss
    pub notional : max_notional ≼ charter_max_notional_usd
    pub daily_loss : max_daily_loss ≼ charter_max_daily_loss_usd

  abbrev pub FiniteSplits : List (ValidationEvidence F) → Type 0
  FiniteSplits es =
      All (λ s. IsFinite s.cost_adjusted_expectancy_usd)
        (validation_evidence_to_walk_forward_splits es)

  module _ (laws : IsOrdered F) (os : List (PaperSimulationOutcome F))
      (es : List (ValidationEvidence F)) (family : String) (human_approved : Bool)
      (reference : Option String) (max_notional max_daily_loss : F) where
    abbrev review : Outcome (RolloutReviewArtifact F)
    review =
        build_rollout_review_artifact os es family human_approved reference max_notional
          max_daily_loss

    -- The intermediate results of a review that is returned.
    record Trace (r : RolloutReviewArtifact F) : Type 0 where
      observations : List (PaperTradeObservation F)
      built : StrategyEvidencePackage F
      evaluation : RolloutEvaluation F
      artifact : TinyLiveReadinessArtifact F
      observed : paper_outcomes_to_rollout_observations os true ≡ ok observations
      packaged : build_strategy_evidence_package os es family ≡ ok built
      limited : is_nonneg max_daily_loss ≡ true
      evaluated :
          evaluate_rollout
            (default_policy max_daily_loss)
            observations
            (validation_evidence_to_walk_forward_splits es)
            built.max_observed_loss_usd
          ≡ ok evaluation
      made :
          generate_tiny_live_readiness_artifact family evaluation
            (to_paper_evidence_package built)
            human_approved
            reference
            max_notional
            max_daily_loss
          ≡ ok artifact
      result : ok (review_artifact evaluation built artifact) ≡ ok r

    trace : {r : RolloutReviewArtifact F} → review ≡ ok r → Trace r
    unfolding build_rollout_review_artifact
    trace e =
        let (observations, observed, e1) =
          bind-ok (paper_outcomes_to_rollout_observations os true) _ e in
        let (built, packaged, e2) = bind-ok (build_strategy_evidence_package os es family) _ e1 in
        let (u, limited, e3) = bind-ok (raise_if (not (is_nonneg max_daily_loss)) _) _ e2 in
        let (evaluation, evaluated, e4) =
          bind-ok
            (evaluate_rollout (default_policy max_daily_loss) observations
              (validation_evidence_to_walk_forward_splits es) built.max_observed_loss_usd)
            _ e3 in
        let (artifact, made, e5) =
          bind-ok
            (generate_tiny_live_readiness_artifact family evaluation
              (to_paper_evidence_package built) human_approved reference max_notional
              max_daily_loss)
            _ e4 in
        record {
          observations = observations;
          built = built;
          evaluation = evaluation;
          artifact = artifact;
          observed = observed;
          packaged = packaged;
          limited = not-eq-false _ (raise_if-ok _ _ limited);
          evaluated = evaluated;
          made = made;
          result = e5;
        }

    ready_artifact :
        (t : TinyLiveReadinessArtifact F)
        → (ev : RolloutEvaluation F) → (b : StrategyEvidencePackage F)
        → (review_artifact ev b t).decision ≡ ready_for_human_review
        → t.ready_for_human_review ≡ true
    unfolding review_artifact
    ready_artifact t ev b d = ground arith

    Eligible-of :
        (b : StrategyEvidencePackage F) (obs : List (PaperTradeObservation F))
        {ev : RolloutEvaluation F}
        → FiniteSplits es
        → is_nonneg max_daily_loss ≡ true
        → evaluate_rollout
            (default_policy max_daily_loss)
            obs
            (validation_evidence_to_walk_forward_splits es)
            b.max_observed_loss_usd
          ≡ ok ev
        → ev.eligible_for_tiny_live ≡ true
        → Eligible
            (default_policy max_daily_loss)
            obs
            (validation_evidence_to_walk_forward_splits es)
            b.max_observed_loss_usd
    unfolding default_policy
    Eligible-of b obs finite limited e =
        (evaluate_rollout-Eligible_iff laws (default_policy max_daily_loss) obs
          (validation_evidence_to_walk_forward_splits es) b.max_observed_loss_usd
          (record {
            count = omega arith;
            rate = laws.decimal_finite 1 1 (omega arith) (omega arith);
            floor = laws.nought_finite;
            budget = ground arith;
            expectancies = finite;
          })
          e).0.0

    -- A review decides "ready_for_human_review" only with a recorded human approval, at least thirty
    -- closed paper trades, none that failed, a profit, distinct walk-forward splits that all pay, an
    -- observed loss within the daily limit, and limits within the charter's caps.
    pub review_ready :
        {r : RolloutReviewArtifact F}
        → FiniteSplits es
        → review ≡ ok r
        → r.decision ≡ ready_for_human_review
        → IsReadyFor os es human_approved reference max_notional max_daily_loss
    unfolding default_policy to_paper_evidence_package
    review_ready finite e d =
        let t = trace e in
        let ready : t.artifact.ready_for_human_review ≡ true =
          ready_artifact t.artifact t.evaluation t.built (ground arith) in
        let asked =
          (readiness_iff family t.evaluation (to_paper_evidence_package t.built) human_approved
              reference max_notional max_daily_loss t.made).0.0
            ready in
        let eligible =
          Eligible-of t.built t.observations finite t.limited t.evaluated asked.eligible in
        let figures = package_figures os es family t.packaged in
        let (seen, split) =
          counted_in _ t.observations (validation_evidence_to_walk_forward_splits es) _
            t.evaluated in
        record {
          approved = asked.approved;
          referenced = asked.referenced;
          closed = ground arith;
          none_failed = ground arith;
          profit = rw (sym figures.net) asked.profit;
          splits = ground arith;
          stable = eligible.stable;
          split_ids = eligible.splits_distinct;
          loss = rw (sym figures.loss) eligible.bounded;
          notional = asked.notional;
          daily_loss = asked.daily_loss;
        }
