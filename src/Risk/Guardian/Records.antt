-- ===== src/Risk/Guardian/Records.antt =====
-- The action modes of src/crypto_alpha_agent/config.py, the approvals of agents/approvals.py, and the
-- reason codes, permissions and pydantic models of risk/guardian.py.
use crypto_research_agent.Common.{
  ℕ, String, Bool, Option, List, [], ◌∷◌, Eq, eq_of_discrete, strip, lower,
}

pub data ActionMode : Type 0 where
  research_only paper gated_live : ActionMode

unfoldable pub ActionMode-discrete : Discrete ActionMode
ActionMode-discrete = hlevel

instance abbrev pub mode_eq : Eq ActionMode
mode_eq = eq_of_discrete ActionMode-discrete

pub data RiskReasonCode : Type 0 where
  capital_above_opportunity_limit daily_loss_limit_reached : RiskReasonCode
  consecutive_failure_limit_reached venue_not_allowed : RiskReasonCode
  forbidden_api_permission forbidden_wallet_permission : RiskReasonCode
  api_permission_scope_too_broad wallet_permission_scope_too_broad : RiskReasonCode
  manual_approval_required manual_approval_denied : RiskReasonCode
  manual_approval_scope_mismatch rollout_gates_not_passed : RiskReasonCode
  live_execution_disabled_by_charter : RiskReasonCode

unfoldable pub RiskReasonCode-discrete : Discrete RiskReasonCode
RiskReasonCode-discrete = hlevel

instance abbrev pub risk_reason_eq : Eq RiskReasonCode
risk_reason_eq = eq_of_discrete RiskReasonCode-discrete

-- agents/approvals.py
pub record ManualApproval (F : Type 0) : Type 0 where
  pub approval_id : String
  pub approved : Bool
  pub opportunity_id : String
  pub action_mode : ActionMode
  pub venue : String
  pub max_approved_capital_usd : F
  pub reference_id : Option String

pub record PermissionScope : Type 0 where
  pub venue : String
  pub api_permissions : List String
  pub wallet_permissions : List String

pub record RiskPolicy (F : Type 0) : Type 0 where
  pub max_capital_per_opportunity_usd : F
  pub max_daily_loss_usd : F
  pub max_consecutive_failures : ℕ
  pub allowed_venues : List String

pub record RiskContext (F : Type 0) : Type 0 where
  pub opportunity_id : String
  pub execution_mode : ActionMode
  pub venue : String
  pub capital_required_usd : F
  pub daily_realized_pnl_usd : F
  pub consecutive_failures : ℕ
  pub permission_scope : PermissionScope
  pub required_approval_id : Option String
  pub required_approval_reference_id : Option String
  pub manual_approval : Option (ManualApproval F)
  pub rollout_eligible_for_tiny_live : Bool

pub record RiskDecision : Type 0 where
  pub opportunity_id : String
  pub approved : Bool
  pub execution_mode : ActionMode
  pub execution_allowed : Bool
  pub live_execution_allowed : Bool
  pub reason_codes : List RiskReasonCode

unfoldable pub normalize_permission : String → String
normalize_permission permission = lower (strip permission)

unfoldable pub normalize_venue : String → String
normalize_venue venue = lower (strip venue)

abbrev pub unbounded_permissions : List String
unbounded_permissions = "*" ∷ "all" ∷ "unbounded" ∷ []

abbrev pub forbidden_api_permissions : List String
forbidden_api_permissions = "admin" ∷ "withdraw" ∷ []

abbrev pub forbidden_wallet_permissions : List String
forbidden_wallet_permissions = "admin" ∷ "withdraw" ∷ []

abbrev pub mode_api_permissions : ActionMode → List String
mode_api_permissions research_only = "read" ∷ []
mode_api_permissions paper = "read" ∷ "paper" ∷ []
mode_api_permissions gated_live = "trade" ∷ []

abbrev pub mode_wallet_permissions : ActionMode → List String
mode_wallet_permissions research_only = []
mode_wallet_permissions paper = "paper-only" ∷ []
mode_wallet_permissions gated_live = "no-withdraw" ∷ []
