-- ===== src/Evidence/Readiness/Review.antt =====
-- When an artifact is ready for a human review, and when making one raises.
use crypto_research_agent.Common.{
  ◌≤◌, ◌≡◌, ◌≢◌, refl, sym, subst, String, Bool, true, false, not, Option, [], arith, ◌↔◌, is_empty,
  is_blank, any, flags, contains, flags-empty_iff, strip, string_eq, ok, err, value_error,
  if◌then◌else◌, Bool-cases, inl, inr,
}
use crypto_research_agent.Common.Float.{Float, IsOrdered, ◌≼◌, ◌≺◌, is_nonneg, lt-eq-not-le}
use crypto_research_agent.Evidence.Models.{PaperEvidencePackage}
use crypto_research_agent.Risk.Rollout.{RolloutEvaluation}
use crypto_research_agent.Evidence.Readiness.{
  Findings, TinyLiveReadinessArtifact, readiness_reasons, checklist_of, missing_codes, is_missing,
  findings_of, artifact_of, check_ready, reject_ready_contradictions,
  generate_tiny_live_readiness_artifact, charter_max_notional_usd, charter_max_daily_loss_usd,
}

abbrev all_held : Findings
all_held = record {
  rollout_passed = true;
  rollout_evidence_consistent = true;
  paper_positive_clean = true;
  sample_covers_rollout = true;
  human_approval_recorded = true;
  strategy_matches = true;
  risk_limits_within_charter = true;
}

-- the message for an eligible evaluation that names a reason
abbrev pub inconsistent : String
inconsistent = "ready_for_human_review cannot be true when rollout_reason_codes is non-empty"

-- No reason is given exactly when every finding holds.
no_reason_iff : (c : Findings) → (is_empty (readiness_reasons c) ≡ true) ↔ (c ≡ all_held)
unfolding readiness_reasons
no_reason_iff c = (
  λ e. let (h0, (h1, (h2, (h3, (h4, (h5, (h6, _))))))) = (flags-empty_iff _).0 e in ground arith,
  λ p. subst (λ d. is_empty (readiness_reasons d) ≡ true) (sym p) (unfold flags in refl),
)

-- A checklist of findings that all hold has no item that fails, and every required code.
complete_checklist :
    (any (λ i. not i.passed) (checklist_of all_held) ≡ false)
    × (missing_codes (checklist_of all_held) ≡ [])
unfolding checklist_of missing_codes contains
complete_checklist = (refl, refl)

module _ {F : Type 0} ⦃f : Float F⦄ where
  open f use {nought, le, lt}

  -- What the review asks for, without the tests of the code.
  pub record Reviewable (family : String) (rollout : RolloutEvaluation F)
      (paper : PaperEvidencePackage F) (human_approved : Bool) (reference : Option String)
      (max_notional max_daily_loss : F) : Type 0 where
    pub eligible : rollout.eligible_for_tiny_live ≡ true
    pub observations : 30 ≤ rollout.observation_count
    pub splits : 3 ≤ rollout.walk_forward_split_count
    pub expectancy : nought ≺ rollout.cost_adjusted_expectancy_usd
    pub no_failure : paper.failed_count ≡ 0
    pub no_reason : paper.failure_reasons ≡ []
    pub profit : nought ≺ paper.net_pnl_usd
    pub sample : rollout.observation_count ≤ paper.sample_size
    pub closed : rollout.observation_count ≤ paper.closed_count
    pub approved : human_approved ≡ true
    pub referenced : is_missing reference ≡ false
    pub same_family : paper.strategy_family ≡ strip family
    pub notional : max_notional ≼ charter_max_notional_usd
    pub daily_loss : max_daily_loss ≼ charter_max_daily_loss_usd

  -- The validator of an artifact passes it on as it is.
  reject-ok :
      (a : TinyLiveReadinessArtifact F) {b : TinyLiveReadinessArtifact F}
      → reject_ready_contradictions a ≡ ok b
      → b ≡ a
  unfolding reject_ready_contradictions check_ready
  reject-ok a e = ground arith

  check_ready_complete :
      (family : String) (rollout : RolloutEvaluation F) (paper : PaperEvidencePackage F)
      (reference : Option String) (max_notional max_daily_loss : F)
      → paper.failure_reasons ≡ []
      → is_missing reference ≡ false
      → lt charter_max_notional_usd max_notional ≡ false
      → lt charter_max_daily_loss_usd max_daily_loss ≡ false
      → let a = artifact_of family rollout paper reference max_notional max_daily_loss all_held in
        check_ready a
        ≡ (if is_empty rollout.reason_codes then ok a else err (value_error inconsistent))
  unfolding check_ready artifact_of readiness_reasons flags
  check_ready_complete family rollout paper reference max_notional max_daily_loss p q r s =
      ground (arith, complete_checklist)

  module _ (family : String) (rollout : RolloutEvaluation F) (paper : PaperEvidencePackage F)
      (human_approved : Bool) (reference : Option String) (max_notional max_daily_loss : F) where
    abbrev found : Findings
    found =
        findings_of (strip family) rollout paper human_approved reference max_notional
          max_daily_loss

    abbrev pub made : TinyLiveReadinessArtifact F
    made = artifact_of (strip family) rollout paper reference max_notional max_daily_loss found

    found_iff :
        (found ≡ all_held)
        ↔ Reviewable family rollout paper human_approved reference max_notional max_daily_loss
    unfolding findings_of
    found_iff = ground (arith, string_eq.beq_iff paper.strategy_family (strip family))

    ready_iff :
        (made.ready_for_human_review ≡ true)
        ↔ Reviewable family rollout paper human_approved reference max_notional max_daily_loss
    unfolding artifact_of
    ready_iff =
        (λ e. found_iff.0 ((no_reason_iff found).0 e), λ h. (no_reason_iff found).1 (found_iff.1 h))

    generate_made :
        {a : TinyLiveReadinessArtifact F}
        → generate_tiny_live_readiness_artifact family rollout paper human_approved reference
            max_notional max_daily_loss
          ≡ ok a
        → a ≡ made
    unfolding generate_tiny_live_readiness_artifact
    generate_made {a} e = ground (arith, reject-ok made {b = a})

    -- An artifact that is made is ready for review exactly when the evidence, the approval and the
    -- limits are those that the review asks for; it never enables live execution.
    pub readiness_iff :
        {a : TinyLiveReadinessArtifact F}
        → generate_tiny_live_readiness_artifact family rollout paper human_approved reference
            max_notional max_daily_loss
          ≡ ok a
        → ((a.ready_for_human_review ≡ true)
            ↔ Reviewable family rollout paper human_approved reference max_notional max_daily_loss)
          × (a.live_execution_enabled ≡ false)
    unfolding artifact_of
    readiness_iff e = rw (generate_made e) (ready_iff, refl)

    -- The arguments that the models of the request and of the limits accept.
    pub record IsAccepted : Type 0 where
      pub named : is_blank (strip family) ≡ false
      pub notional : is_nonneg max_notional ≡ true
      pub daily_loss : is_nonneg max_daily_loss ≡ true

    module _ (laws : IsOrdered F) (accepted : IsAccepted) where
      ready_checks :
          Reviewable family rollout paper human_approved reference max_notional max_daily_loss
          → check_ready made
            ≡ (if is_empty rollout.reason_codes then ok made else err (value_error inconsistent))
      ready_checks h =
          let cap =
            lt-eq-not-le laws charter_max_notional_usd max_notional
              (laws.decimal_finite 25 0 (omega arith) (omega arith))
              (ground (arith, accepted.notional)) in
          let loss =
            lt-eq-not-le laws charter_max_daily_loss_usd max_daily_loss
              (laws.decimal_finite 10 0 (omega arith) (omega arith))
              (ground (arith, accepted.daily_loss)) in
          rw (found_iff.1 h) (
            check_ready_complete (strip family) rollout paper reference max_notional max_daily_loss
              h.no_reason h.referenced (ground (arith, cap)) (ground (arith, loss)))

      -- If an evaluation that finds the strategy eligible names no reason, as those of
      -- `evaluate_rollout` do, making the artifact never raises.
      pub readiness_total :
          (rollout.eligible_for_tiny_live ≡ true → rollout.reason_codes ≡ [])
          → generate_tiny_live_readiness_artifact family rollout paper human_approved reference
              max_notional max_daily_loss
            ≡ ok made
      unfolding generate_tiny_live_readiness_artifact reject_ready_contradictions
      readiness_total consistent = elim (Bool-cases made.ready_for_human_review) [
        | inl ready ↦
            let h = ready_iff.0 ready in
            ground (
              arith,
              accepted.named,
              accepted.notional,
              accepted.daily_loss,
              ready_checks h,
              consistent h.eligible,
            )
        | inr unready ↦ ground (arith, accepted.named, accepted.notional, accepted.daily_loss)
      ]

      -- An eligible evaluation that still names a reason is refused with an error as soon as all else
      -- is ready.
      pub readiness_inconsistent :
          Reviewable family rollout paper human_approved reference max_notional max_daily_loss
          → rollout.reason_codes ≢ []
          → generate_tiny_live_readiness_artifact family rollout paper human_approved reference
              max_notional max_daily_loss
            ≡ err (value_error inconsistent)
      unfolding generate_tiny_live_readiness_artifact reject_ready_contradictions
      readiness_inconsistent h n = ground (
        arith,
        accepted.named,
        accepted.notional,
        accepted.daily_loss,
        ready_checks h,
        ready_iff.1 h,
      )
