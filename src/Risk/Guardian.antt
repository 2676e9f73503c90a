-- ===== src/Risk/Guardian.antt =====
-- src/crypto_alpha_agent/risk/guardian.py: `RiskGuardian`, which decides whether an opportunity may
-- be executed, with agents/approvals.py and the action modes of config.py.
mod Records
unfoldable pub use Records.*
pub mod Reasons
pub mod Decision
use crypto_research_agent.Common.{
  ℕ, String, append_text, Bool, true, false, not, ◌&&◌, ◌||◌, Option, none, some, List, [], ◌∷◌,
  ◌++◌, map, leb, if◌then◌else◌, is_empty, any, length, Eq, ◌=?◌, eq_of_discrete, contains,
  is_subset, flags, strip, lower, join_with, Outcome, ok, err, value_error, permission_error,
  is_none, string_eq,
}
use crypto_research_agent.Common.Float.{Float, larger}
use crypto_research_agent.Common.Dedupe.{distinct}

-- the validator of `PermissionScope`
unfoldable pub reject_unbounded_permissions : List String → Outcome (List String)
unfolding normalize_permission
reject_unbounded_permissions permissions =
    let normalized = map normalize_permission permissions in
    if any (λ p. contains p unbounded_permissions) normalized
    then err (value_error "unbounded permissions are not allowed")
    else ok normalized

-- the validator of `RiskPolicy`
unfoldable pub normalize_allowed_venues : List String → Outcome (List String)
unfolding normalize_venue
normalize_allowed_venues venues =
    let normalized = map normalize_venue venues in
    if distinct normalized then ok normalized else err (value_error "allowed venues must be unique")

unfoldable pub append_reason : List RiskReasonCode → RiskReasonCode → List RiskReasonCode
append_reason reasons reason = if contains reason reasons then reasons else reasons ++ reason ∷ []

-- `for reason in more: _append_reason(reasons, reason)`
unfoldable pub append_reasons : List RiskReasonCode → List RiskReasonCode → List RiskReasonCode
unfolding append_reason
append_reasons reasons [] = reasons
append_reasons reasons (r ∷ more) = append_reasons (append_reason reasons r) more

-- `required is not None and given != required`
abbrev pub differs : Option String → Option String → Bool
differs none given = false
differs (some required) none = true
differs (some required) (some given) = not (given =? required)

module _ {F : Type 0} ⦃f : Float F⦄ where
  open f use {nought, le, lt, neg}

  unfoldable pub permission_reasons : RiskContext F → List RiskReasonCode
  unfolding normalize_venue
  permission_reasons context =
      let mode = context.execution_mode in
      let scope = context.permission_scope in
      let forbidden_api = any (λ p. contains p forbidden_api_permissions) scope.api_permissions in
      let forbidden_wallet =
        any (λ p. contains p forbidden_wallet_permissions) scope.wallet_permissions in
      flags (
        (
          not (mode =? research_only) && not (normalize_venue scope.venue =? context.venue),
          venue_not_allowed,
        )
        ∷ (forbidden_api, forbidden_api_permission)
        ∷ (
          not forbidden_api && not (is_subset scope.api_permissions (mode_api_permissions mode)),
          api_permission_scope_too_broad,
        )
        ∷ (forbidden_wallet, forbidden_wallet_permission)
        ∷ (
          not forbidden_wallet
              && not (is_subset scope.wallet_permissions (mode_wallet_permissions mode)),
          wallet_permission_scope_too_broad,
        )
        ∷ [])

  unfoldable pub approval_matches_context : ManualApproval F → RiskContext F → Bool
  approval_matches_context approval context =
      if is_none context.required_approval_id && is_none context.required_approval_reference_id
      then false
      else if differs context.required_approval_id (some approval.approval_id)
      then false
      else if differs context.required_approval_reference_id approval.reference_id
      then false
      else (approval.opportunity_id =? context.opportunity_id)
        && (approval.action_mode =? context.execution_mode)
        && (approval.venue =? context.venue)
        && le context.capital_required_usd approval.max_approved_capital_usd

  abbrev pub approval_reasons_of : Option (ManualApproval F) → RiskContext F → List RiskReasonCode
  approval_reasons_of none context = manual_approval_required ∷ []
  approval_reasons_of (some approval) context =
      if not approval.approved
      then manual_approval_denied ∷ []
      else if not (approval_matches_context approval context)
      then manual_approval_scope_mismatch ∷ []
      else []

  unfoldable pub approval_reasons : RiskContext F → List RiskReasonCode
  unfolding approval_matches_context
  approval_reasons context =
      if not (context.execution_mode =? gated_live)
      then []
      else approval_reasons_of context.manual_approval context

  unfoldable pub rollout_reasons : RiskContext F → List RiskReasonCode
  rollout_reasons context =
      if (context.execution_mode =? gated_live) && not context.rollout_eligible_for_tiny_live
      then rollout_gates_not_passed ∷ []
      else []

  -- the first four tests of `evaluate`
  unfoldable pub limit_reasons : RiskPolicy F → RiskContext F → List RiskReasonCode
  unfolding larger
  limit_reasons policy context =
      let daily_loss_usd = larger nought (neg context.daily_realized_pnl_usd) in
      flags (
        (
          lt policy.max_capital_per_opportunity_usd context.capital_required_usd,
          capital_above_opportunity_limit,
        )
        ∷ (le policy.max_daily_loss_usd daily_loss_usd, daily_loss_limit_reached)
        ∷ (
          leb policy.max_consecutive_failures context.consecutive_failures,
          consecutive_failure_limit_reached,
        )
        ∷ (
          not (context.execution_mode =? research_only)
              && not (contains context.venue policy.allowed_venues),
          venue_not_allowed,
        )
        ∷ [])

  -- the reasons before the charter's own
  unfoldable pub gate_reasons : RiskPolicy F → RiskContext F → List RiskReasonCode
  unfolding append_reasons limit_reasons permission_reasons approval_reasons rollout_reasons
  gate_reasons policy context =
      let limits = append_reasons [] (limit_reasons policy context) in
      let permissions = append_reasons limits (permission_reasons context) in
      let approvals = append_reasons permissions (approval_reasons context) in
      append_reasons approvals (rollout_reasons context)

  -- `RiskGuardian.evaluate`
  unfoldable pub evaluate : RiskPolicy F → RiskContext F → RiskDecision
  unfolding gate_reasons append_reason
  evaluate policy context =
      let gates = gate_reasons policy context in
      let reasons =
        if (context.execution_mode =? gated_live) && is_empty gates
        then append_reason gates live_execution_disabled_by_charter
        else gates in
      let approved = is_empty reasons in
      record {
        opportunity_id = context.opportunity_id;
        approved = approved;
        execution_mode = context.execution_mode;
        execution_allowed = approved && (context.execution_mode =? paper);
        live_execution_allowed = false;
        reason_codes = reasons;
      }

abbrev pub reason_text : RiskReasonCode → String
reason_text capital_above_opportunity_limit = "capital_above_opportunity_limit"
reason_text daily_loss_limit_reached = "daily_loss_limit_reached"
reason_text consecutive_failure_limit_reached = "consecutive_failure_limit_reached"
reason_text venue_not_allowed = "venue_not_allowed"
reason_text forbidden_api_permission = "forbidden_api_permission"
reason_text forbidden_wallet_permission = "forbidden_wallet_permission"
reason_text api_permission_scope_too_broad = "api_permission_scope_too_broad"
reason_text wallet_permission_scope_too_broad = "wallet_permission_scope_too_broad"
reason_text manual_approval_required = "manual_approval_required"
reason_text manual_approval_denied = "manual_approval_denied"
reason_text manual_approval_scope_mismatch = "manual_approval_scope_mismatch"
reason_text rollout_gates_not_passed = "rollout_gates_not_passed"
reason_text live_execution_disabled_by_charter = "live_execution_disabled_by_charter"

-- `RiskDecision.assert_can_execute`
unfoldable pub assert_can_execute : RiskDecision → Outcome (Unit {0})
unfolding join_with
assert_can_execute decision =
    let joined = join_with "," (map reason_text decision.reason_codes) in
    let reasons = if joined =? "" then "execution_not_allowed" else joined in
    if decision.execution_allowed
    then ok tt
    else err (permission_error (append_text "risk guardian blocked execution: " reasons))
