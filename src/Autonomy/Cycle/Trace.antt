-- ===== src/Autonomy/Cycle/Trace.antt =====
-- What the verification asks of the sandbox, and when it counts as passed.
use crypto_research_agent.Common.{
  ℕ, zero, suc, ◌≡◌, ◌↔◌, refl, sym, subst, String, true, false, some, List, [], ◌∷◌, arith, inl,
  inr, All, Bool-cases, Option-cases,
}
use crypto_research_agent.Common.Int.{ℤ, pos, negsuc, ◌≤ℤ◌, ltb_ℤ}
use crypto_research_agent.Autonomy.Runner.{runner_argv}
use crypto_research_agent.Autonomy.Runner.Confinement.{AreVetted, runner_argv-AreVetted}
use crypto_research_agent.Autonomy.Cycle.{
  Environment, Event, ran, is_zero, raise_highest, verify_one, run_verification,
}

-- The arguments on which pytest ran were vetted.
abbrev pub IsSafeEvent : Event → Type 0
IsSafeEvent (ran args exit_code) = AreVetted args
IsSafeEvent _ = Unit

-- The command was allowed, and its exit code is at most zero.
abbrev pub HasPassed : Environment → ℕ → String → Type 0
HasPassed env index command =
    (args : List String) × (runner_argv env.split_command command ≡ some args)
    × (env.run_safe_command index args ≤ℤ pos 0)

abbrev pub AllPassed : Environment → ℕ → List String → Type 0
AllPassed env index [] = Unit
AllPassed env index (command ∷ commands) =
    HasPassed env index command × AllPassed env (suc index) commands

raise_highest-pos :
    (h : ℕ) (c : ℤ)
    → (k : ℕ) × (raise_highest (pos h) c ≡ pos k) × ((k ≡ 0) ↔ ((h ≡ 0) × (c ≤ℤ pos 0)))
raise_highest-pos h (pos zero) = (h, refl, (λ e. (e, omega arith), λ e. e.0))
raise_highest-pos h (pos (suc m)) = elim (Bool-cases (ltb_ℤ (pos h) (pos (suc m)))) [
  | inl less ↦ (suc m, rw less refl, (λ e. absurd (omega arith), λ e. absurd (omega (arith, e.1))))
  | inr more ↦ (h, rw more refl, (λ e. absurd (ground arith), λ e. absurd (omega (arith, e.1))))
]
raise_highest-pos h (negsuc m) =
    let low : ltb_ℤ (pos h) (negsuc m) ≡ false = ground arith in
    (h, rw low refl, (λ e. (e, omega arith), λ e. e.0))

verify_one-HasPassed :
    (env : Environment) (index : ℕ) (command : String)
    → ((verify_one env index command (runner_argv env.split_command command)).0 ≤ℤ pos 0)
      ↔ HasPassed env index command
verify_one-HasPassed env index command =
    elim (Option-cases (runner_argv env.split_command command)) [
      | inl none_found ↦ rw none_found (λ h. absurd (omega (arith, h)), λ (args, e, h). cc)
      | inr (args, found) ↦ rw found (
        λ h. (args, refl, h),
        λ (other, e, h).
            let same : args ≡ other = cc in
            subst (λ x. env.run_safe_command index x ≤ℤ pos 0) (sym same) h,
      )
    ]

-- The highest exit code is zero exactly when it started so and every command passed.
pub run_verification-AllPassed_iff :
    (env : Environment) (index : ℕ) (commands : List String) (h : ℕ)
    → (is_zero (run_verification env index commands (pos h)).0 ≡ true)
      ↔ ((h ≡ 0) × AllPassed env index commands)
unfolding run_verification
run_verification-AllPassed_iff env index [] zero = (λ _. (refl, tt), λ _. refl)
run_verification-AllPassed_iff env index [] (suc h) = (λ e. cc, λ e. absurd (omega (arith, e.0)))
run_verification-AllPassed_iff env index (command ∷ commands) h =
    let (k, raised, low) =
      raise_highest-pos h
        (verify_one env index command (runner_argv env.split_command command)).0 in
    let (from, back) = run_verification-AllPassed_iff env (suc index) commands k in
    let (passed, unpassed) = verify_one-HasPassed env index command in
    rw raised (
      λ e.
          let (zero_k, rest) = from e in
          let (zero_h, one) = low.0 zero_k in (zero_h, (passed one, rest)),
      λ (zero_h, (one, rest)). back (low.1 (zero_h, unpassed one), rest),
    )

verify_one-IsSafeEvent :
    (env : Environment) (index : ℕ) (command : String)
    → IsSafeEvent (verify_one env index command (runner_argv env.split_command command)).1
verify_one-IsSafeEvent env index command =
    elim (Option-cases (runner_argv env.split_command command)) [
      | inl none_found ↦ rw none_found tt
      | inr (args, found) ↦ rw found (runner_argv-AreVetted env.split_command command found)
    ]

pub run_verification-IsSafeEvent :
    (env : Environment) (index : ℕ) (commands : List String) (highest : ℤ)
    → All IsSafeEvent (run_verification env index commands highest).1
unfolding run_verification
run_verification-IsSafeEvent env index [] highest = tt
run_verification-IsSafeEvent env index (command ∷ commands) highest = (
  verify_one-IsSafeEvent env index command,
  run_verification-IsSafeEvent env (suc index) commands _,
)
