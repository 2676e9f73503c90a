-- ===== src/Risk/Guardian/Decision.antt =====
-- What a decision of the guardian permits, against a description that is independent of its tests.
use crypto_research_agent.Common.{
  ◌≡◌, refl, ap, ◌<◌, ◌↔◌, true, false, ◌&&◌, List, [], ◌∷◌, arith, is_empty, any, All, contains,
  contains-All, is_subset, flags, ok, string_eq, String,
}
use crypto_research_agent.Common.Float.{
  lt-eq-not-le, le_total, Float, IsOrdered, IsFinite, ◌≼◌, ◌≺◌, larger,
}
use crypto_research_agent.Risk.Guardian.{
  risk_reason_eq, live_execution_disabled_by_charter, append_reason, RiskPolicy, RiskContext,
  RiskDecision, paper, gated_live, research_only, gate_reasons, limit_reasons, permission_reasons,
  approval_reasons, rollout_reasons, evaluate, assert_can_execute, normalize_venue, mode_eq,
  mode_api_permissions, mode_wallet_permissions, forbidden_api_permissions,
  forbidden_wallet_permissions,
}
use crypto_research_agent.Risk.Guardian.Reasons.{
  append_reasons-empty, append_reason-nonempty, contains-gate_reasons,
}

-- The texts of the list are all on the other one.
abbrev pub AllIn : List String → List String → Type 0
AllIn xs ys = All (λ x. contains x ys ≡ true) xs

is_subset_iff : (xs ys : List String) → (is_subset xs ys ≡ true) ↔ AllIn xs ys
unfolding is_subset
is_subset_iff [] ys = (λ _. tt, λ _. refl)
is_subset_iff (x ∷ xs) ys = grind (arith, is_subset_iff xs ys)

-- Texts on a list that shares nothing with the forbidden one are not forbidden.
none_forbidden :
    (bad good xs : List String)
    → ((x : String) → contains x good ≡ true → contains x bad ≡ false)
    → is_subset xs good ≡ true
    → any (λ x. contains x bad) xs ≡ false
unfolding is_subset
none_forbidden bad good [] apart h = refl
none_forbidden bad good (x ∷ xs) apart h = ground (arith, apart x, none_forbidden bad good xs apart)

-- A scope within the permissions of paper trading holds none of the forbidden ones.
api_not_forbidden :
    (xs : List String)
    → is_subset xs ("read" ∷ "paper" ∷ []) ≡ true
    → any (λ x. contains x forbidden_api_permissions) xs ≡ false
unfolding contains
api_not_forbidden xs =
    none_forbidden forbidden_api_permissions ("read" ∷ "paper" ∷ []) xs
      (contains-All _ ("read" ∷ "paper" ∷ []) (refl, (refl, tt)))

wallet_not_forbidden :
    (xs : List String)
    → is_subset xs ("paper-only" ∷ []) ≡ true
    → any (λ x. contains x forbidden_wallet_permissions) xs ≡ false
unfolding contains
wallet_not_forbidden xs =
    none_forbidden forbidden_wallet_permissions ("paper-only" ∷ []) xs
      (contains-All _ ("paper-only" ∷ []) (refl, tt))

-- `assert_can_execute` raises unless the execution is allowed.
pub assert_can_execute_iff :
    (decision : RiskDecision)
    → (assert_can_execute decision ≡ ok tt) ↔ (decision.execution_allowed ≡ true)
unfolding assert_can_execute
assert_can_execute_iff decision = ground arith

module _ {F : Type 0} ⦃f : Float F⦄ where
  open f use {nought, neg}

  -- The limits of the policy, stated on the amounts themselves.
  pub record Within (policy : RiskPolicy F) (context : RiskContext F) : Type 0 where
    pub capital : context.capital_required_usd ≼ policy.max_capital_per_opportunity_usd
    pub budget : nought ≺ policy.max_daily_loss_usd
    pub loss : neg context.daily_realized_pnl_usd ≺ policy.max_daily_loss_usd
    pub failures : context.consecutive_failures < policy.max_consecutive_failures
    pub venue : contains context.venue policy.allowed_venues ≡ true

  -- A scope for paper trading at the venue of the opportunity, and for nothing else.
  pub record PaperScoped (context : RiskContext F) : Type 0 where
    pub venue : normalize_venue context.permission_scope.venue ≡ context.venue
    pub api : AllIn context.permission_scope.api_permissions ("read" ∷ "paper" ∷ [])
    pub wallet : AllIn context.permission_scope.wallet_permissions ("paper-only" ∷ [])

  -- The fields that pydantic holds finite.
  pub record Checked (policy : RiskPolicy F) (context : RiskContext F) : Type 0 where
    pub max_capital : IsFinite policy.max_capital_per_opportunity_usd
    pub max_loss : IsFinite policy.max_daily_loss_usd
    pub capital : IsFinite context.capital_required_usd
    pub pnl : IsFinite context.daily_realized_pnl_usd

  module _ (laws : IsOrdered F) where
    larger-lt_iff :
        (x y z : F)
        → IsFinite x
        → IsFinite y
        → IsFinite z
        → (f.le z (larger x y) ≡ false) ↔ ((x ≺ z) × (y ≺ z))
    unfolding larger
    larger-lt_iff x y z p q r = ground (
      arith,
      lt-eq-not-le laws x y p q,
      lt-eq-not-le laws x z p r,
      lt-eq-not-le laws y z q r,
      le_total laws x y p q,
      laws.le_trans z x y,
      laws.le_trans z y x,
    )

    limits_clear :
        (policy : RiskPolicy F) (context : RiskContext F)
        → Checked policy context
        → context.execution_mode ≡ paper
        → (is_empty (limit_reasons policy context) ≡ true) ↔ Within policy context
    unfolding limit_reasons flags
    limits_clear policy context k m = ground (
      arith,
      mode_eq.beq_iff context.execution_mode research_only,
      lt-eq-not-le laws policy.max_capital_per_opportunity_usd context.capital_required_usd
          k.max_capital k.capital,
      larger-lt_iff nought (neg context.daily_realized_pnl_usd) policy.max_daily_loss_usd
          laws.nought_finite (laws.neg_finite context.daily_realized_pnl_usd k.pnl) k.max_loss,
    )

  permissions_clear :
      (context : RiskContext F)
      → context.execution_mode ≡ paper
      → (is_empty (permission_reasons context) ≡ true) ↔ PaperScoped context
  unfolding permission_reasons flags
  permissions_clear context m =
      let scope = context.permission_scope in
      let api : mode_api_permissions context.execution_mode ≡ "read" ∷ "paper" ∷ [] =
        ap mode_api_permissions m in
      let wallet : mode_wallet_permissions context.execution_mode ≡ "paper-only" ∷ [] =
        ap mode_wallet_permissions m in
      ground (
        arith,
        mode_eq.beq_iff context.execution_mode research_only,
        string_eq.beq_iff (normalize_venue scope.venue) context.venue,
        is_subset_iff scope.api_permissions ("read" ∷ "paper" ∷ []),
        is_subset_iff scope.wallet_permissions ("paper-only" ∷ []),
        api_not_forbidden scope.api_permissions,
        wallet_not_forbidden scope.wallet_permissions,
      )

  paper_asks_no_approval :
      (context : RiskContext F)
      → context.execution_mode ≡ paper
      → (approval_reasons context ≡ []) × (rollout_reasons context ≡ [])
  unfolding approval_reasons rollout_reasons
  paper_asks_no_approval context m =
      ground (arith, mode_eq.beq_iff context.execution_mode gated_live)

  gate_reasons-empty :
      (policy : RiskPolicy F) (context : RiskContext F)
      → is_empty (gate_reasons policy context) ≡ (
          is_empty (limit_reasons policy context)
          && is_empty (permission_reasons context)
          && is_empty (approval_reasons context)
          && is_empty (rollout_reasons context))
  unfolding gate_reasons
  gate_reasons-empty policy context = simp append_reasons-empty (ground arith)

  module _ (laws : IsOrdered F) where
    paper_gates_iff :
        (policy : RiskPolicy F) (context : RiskContext F)
        → Checked policy context
        → context.execution_mode ≡ paper
        → (is_empty (gate_reasons policy context) ≡ true)
          ↔ (Within policy context × PaperScoped context)
    paper_gates_iff policy context k m = ground (
      arith,
      gate_reasons-empty policy context,
      limits_clear laws policy context k m,
      permissions_clear context m,
      paper_asks_no_approval context m,
    )

    -- Execution is allowed exactly for paper trades within the limits of the policy whose
    -- permissions are those of paper trading.
    pub evaluate-permits_iff :
        (policy : RiskPolicy F) (context : RiskContext F)
        → Checked policy context
        → ((evaluate policy context).execution_allowed ≡ true)
          ↔ ((context.execution_mode ≡ paper) × Within policy context × PaperScoped context)
    unfolding evaluate
    evaluate-permits_iff policy context k = ground (
      arith,
      mode_eq.beq_iff context.execution_mode gated_live,
      mode_eq.beq_iff context.execution_mode paper,
      paper_gates_iff policy context k,
    )

  -- Live execution is never approved: whatever approval is recorded, a decision in the live mode has
  -- a reason against it, and it is the charter's own exactly when no gate gave one.
  pub evaluate-gated_live :
      (policy : RiskPolicy F) (context : RiskContext F)
      → context.execution_mode ≡ gated_live
      → let decision = evaluate policy context in
        (decision.approved ≡ false)
        × (decision.execution_allowed ≡ false)
        × (decision.live_execution_allowed ≡ false)
        × ((decision.reason_codes ≡ live_execution_disabled_by_charter ∷ [])
            ↔ (gate_reasons policy context ≡ []))
  unfolding evaluate append_reason contains
  evaluate-gated_live policy context m = ground (
    arith,
    mode_eq.beq_iff context.execution_mode gated_live,
    mode_eq.beq_iff context.execution_mode paper,
    append_reason-nonempty (gate_reasons policy context) live_execution_disabled_by_charter,
    risk_reason_eq.beq_iff live_execution_disabled_by_charter live_execution_disabled_by_charter,
    contains-gate_reasons policy context,
  )
