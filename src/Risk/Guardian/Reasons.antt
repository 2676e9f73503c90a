-- ===== src/Risk/Guardian/Reasons.antt =====
-- The list of reasons that `evaluate` collects: nothing is lost, nothing is repeated.
use crypto_research_agent.Common.{
  ◌≡◌, refl, false, ◌&&◌, ◌||◌, List, [], ◌∷◌, arith, inl, inr, ◌=?◌, is_empty, Bool-cases,
  contains, contains-append, IsDistinct, IsDistinct-snoc, contains-flags-false,
}
use crypto_research_agent.Common.Float.{Float}
use crypto_research_agent.Risk.Guardian.{
  RiskReasonCode, risk_reason_eq, RiskPolicy, RiskContext, append_reason, append_reasons,
  limit_reasons, permission_reasons, approval_reasons, rollout_reasons, RiskReasonCode-discrete,
  gate_reasons, gated_live, mode_eq, evaluate, live_execution_disabled_by_charter,
}

pub append_reason-nonempty :
    (rs : List RiskReasonCode) (r : RiskReasonCode) → is_empty (append_reason rs r) ≡ false
unfolding append_reason contains
append_reason-nonempty [] r = refl
append_reason-nonempty (x ∷ rs) r = ground arith

-- No reason is reported exactly when none was there and none is added.
pub append_reasons-empty :
    (rs xs : List RiskReasonCode) → is_empty (append_reasons rs xs) ≡ (is_empty rs && is_empty xs)
unfolding append_reasons
append_reasons-empty rs [] = ground arith
append_reasons-empty rs (x ∷ xs) =
    ground (arith, append_reasons-empty (append_reason rs x) xs, append_reason-nonempty rs x)

pub append_reason-IsDistinct :
    (rs : List RiskReasonCode) (r : RiskReasonCode)
    → IsDistinct rs
    → IsDistinct (append_reason rs r)
unfolding append_reason
append_reason-IsDistinct rs r d = elim (Bool-cases (contains r rs)) [
  | inl old ↦ rw old d
  | inr new ↦ rw new (IsDistinct-snoc rs r d new)
]

pub append_reasons-IsDistinct :
    (rs xs : List RiskReasonCode) → IsDistinct rs → IsDistinct (append_reasons rs xs)
unfolding append_reasons
append_reasons-IsDistinct rs [] d = d
append_reasons-IsDistinct rs (x ∷ xs) d =
    append_reasons-IsDistinct (append_reason rs x) xs (append_reason-IsDistinct rs x d)

contains-append_reasons :
    (r : RiskReasonCode) (rs xs : List RiskReasonCode)
    → contains r (append_reasons rs xs) ≡ (contains r rs || contains r xs)
unfolding append_reasons append_reason contains
contains-append_reasons r rs [] = ground arith
contains-append_reasons r rs (x ∷ xs) = ground (
  arith,
  contains-append_reasons r (append_reason rs x) xs,
  contains-append r rs (x ∷ []),
  risk_reason_eq.beq_iff r x,
)

module _ {F : Type 0} ⦃f : Float F⦄ where
  limits_without_charter :
      (policy : RiskPolicy F) (context : RiskContext F)
      → contains live_execution_disabled_by_charter (limit_reasons policy context) ≡ false
  unfolding limit_reasons contains RiskReasonCode-discrete
  limits_without_charter policy context =
      contains-flags-false live_execution_disabled_by_charter _ refl

  permissions_without_charter :
      (context : RiskContext F)
      → contains live_execution_disabled_by_charter (permission_reasons context) ≡ false
  unfolding permission_reasons contains RiskReasonCode-discrete
  permissions_without_charter context =
      contains-flags-false live_execution_disabled_by_charter _ refl

  approvals_without_charter :
      (context : RiskContext F)
      → (contains live_execution_disabled_by_charter (approval_reasons context) ≡ false)
        × (contains live_execution_disabled_by_charter (rollout_reasons context) ≡ false)
  unfolding approval_reasons rollout_reasons contains RiskReasonCode-discrete
  approvals_without_charter context = ground arith

  -- The charter's reason is no gate's.
  pub contains-gate_reasons :
      (policy : RiskPolicy F) (context : RiskContext F)
      → contains live_execution_disabled_by_charter (gate_reasons policy context) ≡ false
  unfolding gate_reasons
  contains-gate_reasons policy context = simp contains-append_reasons (
      unfold contains in
      ground (
        arith,
        limits_without_charter policy context,
        permissions_without_charter context,
        approvals_without_charter context,
      ))

  pub gate_reasons-IsDistinct :
      (policy : RiskPolicy F) (context : RiskContext F) → IsDistinct (gate_reasons policy context)
  unfolding gate_reasons
  gate_reasons-IsDistinct policy context = search append_reasons-IsDistinct

  -- The decision reports every reason once.
  pub evaluate-IsDistinct :
      (policy : RiskPolicy F) (context : RiskContext F)
      → IsDistinct (evaluate policy context).reason_codes
  unfolding evaluate
  evaluate-IsDistinct policy context =
      elim (Bool-cases
        ((context.execution_mode =? gated_live) && is_empty (gate_reasons policy context))) [
          | inl e ↦ rw e (
              append_reason-IsDistinct (gate_reasons policy context)
                live_execution_disabled_by_charter (gate_reasons-IsDistinct policy context))
          | inr e ↦ rw e (gate_reasons-IsDistinct policy context)
        ]
