-- ===== src/Autonomy/Cycle/Promotion.antt =====
-- What a cycle's report says of the promotion: the conditions that come before it and the trace.
use crypto_research_agent.Common.{
  ℕ, zero, suc, ◌≡◌, ◌↔◌, ◌≢◌, &&_iff, not-eq-false, refl, sym, ap, ◌∙◌, String, Bool, true, false,
  not, ◌&&◌, Option, none, some, List, [], ◌∷◌, arith, inl, inr, if◌then◌else◌, All, All-append,
  any, is_empty, is_none, is_empty-append, flags, flags-empty_iff, All-flags, is_empty-flag,
  Bool-cases, ok,
}
use mathlib.Core.Path.{ap₂}
use crypto_research_agent.Common.Int.{ℤ, pos}
use crypto_research_agent.Common.Dedupe.{any-append}
use crypto_research_agent.Autonomy.Runner.{runner_argv}
use crypto_research_agent.Autonomy.Cycle.{
  Attempt, succeeded, failed, raised, Environment, Event, worktree_created, built, patched,
  promoted, CreationObject, is_zero, failure_of, commands_of, verify_one, run_verification,
  reason_conditions, reasons_before, promotes, events_before, cycle_report,
}
use crypto_research_agent.Autonomy.Cycle.Trace.{
  IsSafeEvent, AllPassed, run_verification-AllPassed_iff, run_verification-IsSafeEvent,
}

abbrev pub is_promoted : Event → Bool
is_promoted promoted = true
is_promoted _ = false

zero_of_is_zero : (z : ℤ) → (is_zero z ≡ true) ↔ (z ≡ pos 0)
zero_of_is_zero (pos zero) = (λ _. refl, λ _. refl)
zero_of_is_zero (pos (suc n)) = (λ e. cc, λ e. cc)
zero_of_is_zero _ = (λ e. cc, λ e. cc)

succeeded_of_failure : (a : Attempt) → (failure_of a ≡ ok none) ↔ (a ≡ succeeded)
succeeded_of_failure succeeded = (λ _. refl, λ _. refl)
succeeded_of_failure (failed text) = (λ e. cc, λ e. cc)
succeeded_of_failure (raised e) = (λ e. cc, λ e. cc)

pub is_none_iff {ℓ} : {A : Type ℓ} (o : Option A) → (is_none o ≡ true) ↔ (o ≡ none)
is_none_iff none = (λ _. refl, λ _. refl)
is_none_iff (some a) = (λ e. cc, λ e. cc)

any-All-false {ℓ} :
    {A : Type ℓ} (p : A → Bool) (xs : List A) → All (λ x. p x ≡ false) xs → any p xs ≡ false
any-All-false p [] h = refl
any-All-false p (x ∷ xs) (h, t) = rw h (any-All-false p xs t)

true≢false : true ≢ false
true≢false h = cc

pub some≢none {ℓ} : {A : Type ℓ} {a : A} → some a ≢ none
some≢none h = cc

pub false≢true : false ≢ true
false≢true h = cc

any-flag {ℓ} :
    {A : Type ℓ} (p : A → Bool) (c : Bool) (x : A) → p x ≡ true → any p (flags ((c, x) ∷ [])) ≡ c
unfolding flags
any-flag p true x h = rw h refl
any-flag p false x h = refl

not-not : (b : Bool) → not (not b) ≡ b
not-not b = ground arith

module _ (env : Environment) where
  verify_one-unpromoted :
      (index : ℕ) (command : String) (found : Option (List String))
      → is_promoted (verify_one env index command found).1 ≡ false
  verify_one-unpromoted index command none = refl
  verify_one-unpromoted index command (some args) = refl

  run_verification-unpromoted :
      (index : ℕ) (commands : List String) (highest : ℤ)
      → All (λ e. is_promoted e ≡ false) (run_verification env index commands highest).1
  unfolding run_verification
  run_verification-unpromoted index [] highest = tt
  run_verification-unpromoted index (command ∷ commands) highest = (
    verify_one-unpromoted index command (runner_argv env.split_command command),
    run_verification-unpromoted (suc index) commands _,
  )

  pub promotes_iff :
      (creation : CreationObject) (run_commands : Bool) (worktree_error patch_error : Option String)
      → (promotes env creation run_commands worktree_error patch_error ≡ true) ↔ (
          (run_commands ≡ true)
          × (worktree_error ≡ none)
          × (env.builder_exit_code ≡ pos 0)
          × AllPassed env 0 (commands_of creation.verification_commands)
          × (patch_error ≡ none))
  promotes_iff creation true none none =
      let z = (run_verification env 0 (commands_of creation.verification_commands) (pos 0)).0 in
      let conditions = reason_conditions env.builder_exit_code (some z) true none none in
      let all_passed =
        run_verification-AllPassed_iff env 0 (commands_of creation.verification_commands) 0 in
      (
        λ h.
            let c =
              (flags-empty_iff conditions).0 ((&&_iff (is_empty (flags conditions)) true).0 h).0 in
            (
              refl,
              refl,
              (zero_of_is_zero env.builder_exit_code).0
                  (not-eq-false (is_zero env.builder_exit_code) c.0),
              (all_passed.0 (not-eq-false (is_zero z) c.1.0)).1,
              refl,
            ),
        λ (_, _, built_well, passed, _).
            let zero_builder = (zero_of_is_zero env.builder_exit_code).1 built_well in
            let zero_runner = all_passed.1 (refl, passed) in
            rw
              ((flags-empty_iff conditions).1
                (ap not zero_builder, (ap not zero_runner, (refl, (refl, (refl, tt))))))
              refl,
      )
  promotes_iff creation true none (some text) =
      let z = (run_verification env 0 (commands_of creation.verification_commands) (pos 0)).0 in
      let conditions = reason_conditions env.builder_exit_code (some z) true none (some text) in
      (
        λ h.
            let c =
              (flags-empty_iff conditions).0 ((&&_iff (is_empty (flags conditions)) true).0 h).0 in
            absurd (true≢false c.1.1.1.1.0),
        λ (_, _, _, _, e). cc,
      )
  promotes_iff creation true (some text) patch_error =
      let conditions = reason_conditions (pos 1) none true (some text) patch_error in
      (
        λ h.
            let c =
              (flags-empty_iff conditions).0 ((&&_iff (is_empty (flags conditions)) true).0 h).0 in
            absurd (true≢false c.0),
        λ (_, e, _, _, _). cc,
      )
  promotes_iff creation false worktree_error patch_error = (
    λ h. absurd (
        false≢true
          ((&&_iff (is_empty (reasons_before env creation false worktree_error patch_error))
              false).0
            h).1),
    λ (e, _, _, _, _). cc,
  )

  -- Without the commands there is a reason, so no reason means a promotion.
  empty-promotes :
      (creation : CreationObject) (run_commands : Bool) (worktree_error patch_error : Option String)
      → promotes env creation run_commands worktree_error patch_error
        ≡ is_empty (reasons_before env creation run_commands worktree_error patch_error)
  empty-promotes creation true worktree_error patch_error = ground arith
  empty-promotes creation false worktree_error patch_error =
      elim (Bool-cases (is_empty (reasons_before env creation false worktree_error patch_error))) [
        | inl e ↦
            let c =
              (flags-empty_iff (
                  reason_conditions
                    (if is_none worktree_error then env.builder_exit_code else pos 1)
                    (if false && is_none worktree_error
                      then some
                          (run_verification env 0 (commands_of creation.verification_commands)
                            (pos 0)).0
                      else none)
                    false worktree_error patch_error)).0
                e in
            absurd (true≢false c.1.1.0)
        | inr e ↦ rw e refl
      ]

  module _ (creation : CreationObject) (run_commands : Bool)
      (worktree_error patch_error : Option String) where
    -- A property of all events that are no promotion, and of the last one where there is one.
    All-trace {κ} :
        (P : Event → Type κ)
        → P worktree_created
        → P built
        → P patched
        → All P (run_verification env 0 (commands_of creation.verification_commands) (pos 0)).1
        → All P (events_before env creation run_commands worktree_error)
    All-trace P w b p verified =
        All-append P _ _
          (All-flags P ((run_commands, worktree_created) ∷ (is_none worktree_error, built) ∷ [])
            (w, (b, tt)))
          (elim (Bool-cases (run_commands && is_none worktree_error)) [
            | inl e ↦ rw e (All-append P _ (patched ∷ []) verified (p, tt))
            | inr e ↦ rw e tt
          ])

    pub trace-IsSafeEvent :
        All IsSafeEvent (cycle_report env creation run_commands worktree_error patch_error).trace
    unfolding cycle_report
    trace-IsSafeEvent =
        let promoting = promotes env creation run_commands worktree_error patch_error in
        All-append IsSafeEvent (events_before env creation run_commands worktree_error) _
          (All-trace IsSafeEvent tt tt tt (run_verification-IsSafeEvent env 0 _ (pos 0)))
          (All-flags IsSafeEvent ((promoting, promoted) ∷ []) (tt, tt))

    pub promoted-promotes :
        any is_promoted (cycle_report env creation run_commands worktree_error patch_error).trace
        ≡ promotes env creation run_commands worktree_error patch_error
    unfolding cycle_report
    promoted-promotes =
        let promoting = promotes env creation run_commands worktree_error patch_error in
        let before = events_before env creation run_commands worktree_error in
        let none_before : any is_promoted before ≡ false = any-All-false is_promoted before (
          All-trace (λ e. is_promoted e ≡ false) refl refl refl
            (run_verification-unpromoted 0 _ (pos 0))) in
        any-append is_promoted before (flags ((promoting, promoted) ∷ []))
        ∙ rw none_before (any-flag is_promoted promoting promoted refl)

    pub accepted-promotes :
        (cycle_report env creation run_commands worktree_error patch_error).accepted ≡ (
          promotes env creation run_commands worktree_error patch_error && is_none env.promote_task)
    unfolding cycle_report
    accepted-promotes =
        let before = reasons_before env creation run_commands worktree_error patch_error in
        let promoting = promotes env creation run_commands worktree_error patch_error in
        is_empty-append before _
        ∙ ap₂ ◌&&◌ (sym (empty-promotes creation run_commands worktree_error patch_error)) (
            is_empty-flag {R = String}
              (not (is_none (if promoting then env.promote_task else none))) "promotion_failed")
        ∙ (elim (Bool-cases promoting) [
          | inl e ↦ rw e (not-not (is_none env.promote_task))
          | inr e ↦ rw e refl
        ])
