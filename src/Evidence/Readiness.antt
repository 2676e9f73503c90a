-- ===== src/Evidence/Readiness.antt =====
-- src/crypto_alpha_agent/evidence/live_readiness.py: the artifact that asks a human to review a tiny
-- live rollout. The prose of a checklist item, its name and detail, is left out.
mod Records
unfoldable pub use Records.*
pub mod Review
use crypto_research_agent.Common.{
  ℕ, String, Bool, true, false, not, ◌&&◌, ◌||◌, Option, none, some, List, [], ◌∷◌, ltb, leb, ◌==◌,
  if◌then◌else◌, is_empty, is_blank, is_none, any, map, length, flags, contains, ◌=?◌, string_eq,
  strip, append_text, join_with, Outcome, ok, err, value_error, validation_error, ◌>>=◌, ◌>>◌,
  raise_if, keep,
}
use crypto_research_agent.Common.Float.{Float, is_nonneg}
use crypto_research_agent.Evidence.Models.{PaperEvidencePackage}
use crypto_research_agent.Risk.Rollout.{RolloutEvaluation, RolloutReasonCode}

-- `reference is None or not reference.strip()`
unfoldable pub is_missing : Option String → Bool
is_missing none = true
is_missing (some reference) = is_blank (strip reference)

abbrev pub required_readiness_checklist_codes : List String
required_readiness_checklist_codes =
    "rollout_gates_passed" ∷ "rollout_evidence_consistent" ∷ "paper_evidence_positive_clean"
    ∷ "paper_sample_covers_rollout" ∷ "human_approval_recorded" ∷ "strategy_family_matches"
    ∷ "risk_limits_within_charter" ∷ []

abbrev pub item : String → Bool → ChecklistItem
item code held = record { code = code; passed = held }

-- the required codes that no passing item carries
unfoldable pub missing_codes : List ChecklistItem → List String
missing_codes items =
    keep (λ code. not (contains code (map (λ i. i.code) (keep (λ i. i.passed) items))))
      required_readiness_checklist_codes

unfoldable pub readiness_reasons : Findings → List ReadinessReasonCode
readiness_reasons c = flags (
    (not c.rollout_passed, rollout_gates_not_passed)
    ∷ (not c.rollout_evidence_consistent, rollout_evidence_inconsistent)
    ∷ (not c.paper_positive_clean, paper_evidence_failed)
    ∷ (not c.sample_covers_rollout, insufficient_paper_sample)
    ∷ (not c.human_approval_recorded, human_approval_missing)
    ∷ (not c.strategy_matches, strategy_family_mismatch)
    ∷ (not c.risk_limits_within_charter, risk_limits_above_charter)
    ∷ [])

unfoldable pub checklist_of : Findings → List ChecklistItem
checklist_of c =
    item "rollout_gates_passed" c.rollout_passed
    ∷ item "rollout_evidence_consistent" c.rollout_evidence_consistent
    ∷ item "paper_evidence_positive_clean" c.paper_positive_clean
    ∷ item "paper_sample_covers_rollout" c.sample_covers_rollout
    ∷ item "human_approval_recorded" c.human_approval_recorded
    ∷ item "strategy_family_matches" c.strategy_matches
    ∷ item "risk_limits_within_charter" c.risk_limits_within_charter
    ∷ []

abbrev pub min_rollout_observations : ℕ
min_rollout_observations = 30

abbrev pub min_walk_forward_splits : ℕ
min_walk_forward_splits = 3

module _ {F : Type 0} ⦃f : Float F⦄ where
  open f use {nought, decimal, le, lt}

  abbrev pub charter_max_notional_usd : F
  charter_max_notional_usd = decimal 25 0

  abbrev pub charter_max_daily_loss_usd : F
  charter_max_daily_loss_usd = decimal 10 0

  -- the checks of an artifact that claims to be ready
  unfoldable pub check_ready : TinyLiveReadinessArtifact F → Outcome (TinyLiveReadinessArtifact F)
  check_ready a = do
    raise_if (not (is_empty a.reason_codes))
        (value_error "ready_for_human_review cannot be true when reason_codes is non-empty")
    raise_if (not (is_empty a.rollout_reason_codes))
        (value_error "ready_for_human_review cannot be true when rollout_reason_codes is non-empty")
    raise_if (not (is_empty a.paper_failure_reasons)) (
        value_error "ready_for_human_review cannot be true when paper_failure_reasons is non-empty")
    raise_if (is_missing a.human_approval_reference)
        (value_error "ready_for_human_review requires a nonblank human_approval_reference")
    raise_if
        (lt charter_max_notional_usd a.max_notional_usd
          || lt charter_max_daily_loss_usd a.max_daily_loss_usd)
        (value_error "ready_for_human_review requires risk limits within charter caps")
    raise_if (any (λ i. not i.passed) a.checklist_items) (
        value_error
          "ready_for_human_review cannot be true when checklist_items contains a fail item")
    raise_if (not (is_empty (missing_codes a.checklist_items))) (
        value_error (
          append_text "ready_for_human_review requires pass checklist items for: "
            (join_with ", " (missing_codes a.checklist_items))))
    ok a

  -- the model validator of the artifact
  unfoldable pub reject_ready_contradictions :
      TinyLiveReadinessArtifact F → Outcome (TinyLiveReadinessArtifact F)
  reject_ready_contradictions a = if not a.ready_for_human_review then ok a else check_ready a

  -- the seven findings, in the order of the code
  unfoldable pub findings_of :
      String
      → RolloutEvaluation F
      → PaperEvidencePackage F
      → Bool
      → Option String
      → F
      → F
      → Findings
  unfolding is_missing
  findings_of family rollout paper human_approved reference max_notional max_daily_loss = record {
    rollout_passed = rollout.eligible_for_tiny_live;
    rollout_evidence_consistent =
        leb min_rollout_observations rollout.observation_count
        && leb min_walk_forward_splits rollout.walk_forward_split_count
        && lt nought rollout.cost_adjusted_expectancy_usd;
    paper_positive_clean =
        (paper.failed_count == 0) && is_empty paper.failure_reasons && lt nought paper.net_pnl_usd;
    sample_covers_rollout =
        ltb 0 paper.sample_size
        && ltb 0 paper.closed_count
        && leb rollout.observation_count paper.sample_size
        && leb rollout.observation_count paper.closed_count;
    human_approval_recorded = human_approved && not (is_missing reference);
    strategy_matches = paper.strategy_family =? family;
    risk_limits_within_charter =
        le max_notional charter_max_notional_usd && le max_daily_loss charter_max_daily_loss_usd;
  }

  unfoldable pub artifact_of :
      String
      → RolloutEvaluation F
      → PaperEvidencePackage F
      → Option String
      → F
      → F
      → Findings
      → TinyLiveReadinessArtifact F
  artifact_of family rollout paper reference max_notional max_daily_loss c =
      let reasons = readiness_reasons c in
      record {
        strategy_family = family;
        ready_for_human_review = is_empty reasons;
        live_execution_enabled = false;
        reason_codes = reasons;
        checklist_items = checklist_of c;
        rollout_reason_codes = rollout.reason_codes;
        paper_failure_reasons = paper.failure_reasons;
        max_notional_usd = max_notional;
        max_daily_loss_usd = max_daily_loss;
        human_approval_reference = if is_missing reference then none else reference;
      }

  unfoldable pub generate_tiny_live_readiness_artifact :
      String
      → RolloutEvaluation F
      → PaperEvidencePackage F
      → Bool
      → Option String
      → F
      → F
      → Outcome (TinyLiveReadinessArtifact F)
  generate_tiny_live_readiness_artifact strategy_family rollout paper human_approved reference
        max_notional max_daily_loss =
      let family = strip strategy_family in
      let found =
        findings_of family rollout paper human_approved reference max_notional max_daily_loss in
      do
        raise_if (is_blank family) (value_error "strategy_family must not be blank")
        raise_if (not (is_nonneg max_notional && is_nonneg max_daily_loss))
            (validation_error "_TinyLiveReadinessRiskLimits")
        reject_ready_contradictions
            (artifact_of family rollout paper reference max_notional max_daily_loss found)
