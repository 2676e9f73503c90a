-- ===== src/Autonomy/Cycle.antt =====
-- `run_creation_cycle` of src/crypto_alpha_agent/autonomy/cycle.py, from the creation on: a worktree, the
-- builder, the verification, the patch and the promotion. What git, docker and the builder answer is an
-- `Environment`; what the cycle asks of them is its trace. Reports and notes that are written are left
-- out.
pub mod Trace
pub mod Promotion
pub mod Acceptance
use crypto_research_agent.Common.{
  ℕ, zero, suc, String, append_text, Bool, true, false, not, ◌&&◌, ◌||◌, Option, none, some, List,
  [], ◌∷◌, ◌++◌, if◌then◌else◌, is_empty, is_none, contains, flags, join_with, string_eq, Outcome,
  ok, err, Error, ◌>>=◌,
}
use crypto_research_agent.Common.Int.{ℤ, pos, negsuc, ltb_ℤ}
use crypto_research_agent.Autonomy.Runner.{runner_argv}

-- How a call ends: with a failure that the cycle catches, or with an exception that it does not.
pub data Attempt : Type 0 where
  succeeded : Attempt
  failed : String → Attempt
  raised : Error → Attempt

-- `command n args` is the exit code of the n-th command in the sandbox; a signal gives a negative one.
-- `promote_task` is the text of any exception that the promotion raises.
pub record Environment : Type 0 where
  pub split_command : String → Outcome (List String)
  pub create_task_worktree : Attempt
  pub builder_exit_code : ℤ
  pub run_safe_command : ℕ → List String → ℤ
  pub write_patch : Attempt
  pub promote_task : Option String

pub data Event : Type 0 where
  worktree_created : Event
  built : Event
  rejected : String → Event
  ran : List String → ℤ → Event
  patched : Event
  promoted : Event

-- the fields of a `CreationObject` that the cycle reads
pub record CreationObject : Type 0 where
  pub status : String
  pub continuation_reason : String
  pub verification_commands : List String

pub record CreationCycleReport : Type 0 where
  pub accepted : Bool
  pub status : String
  pub runner_exit_code : Option ℤ
  pub rejected_reason_codes : List String
  pub next_actions : List String
  pub trace : List Event

abbrev pub is_zero : ℤ → Bool
is_zero (pos zero) = true
is_zero _ = false

-- `except subprocess.SubprocessError`
abbrev pub failure_of : Attempt → Outcome (Option String)
failure_of succeeded = ok none
failure_of (failed text) = ok (some text)
failure_of (raised e) = err e

abbrev pub default_runner_commands : List String
default_runner_commands = "python -m pytest tests/test_creation_autonomy_store.py -q" ∷ []

abbrev pub commands_of : List String → List String
commands_of [] = default_runner_commands
commands_of (c ∷ cs) = c ∷ cs

-- `if exit_code != 0: highest = max(highest, exit_code)`
abbrev pub raise_highest : ℤ → ℤ → ℤ
raise_highest highest code =
    if is_zero code then highest else if ltb_ℤ highest code then code else highest

abbrev pub verify_one : Environment → ℕ → String → Option (List String) → ℤ × Event
verify_one env index command none = (pos 126, rejected command)
verify_one env index command (some args) =
    let code = env.run_safe_command index args in (code, ran args code)

-- `_run_verification`, from a command on
unfoldable pub run_verification : Environment → ℕ → List String → ℤ → ℤ × List Event
run_verification env index [] highest = (highest, [])
run_verification env index (command ∷ commands) highest =
    let one = verify_one env index command (runner_argv env.split_command command) in
    let rest = run_verification env (suc index) commands (raise_highest highest one.0) in
    (rest.0, one.1 ∷ rest.1)

abbrev pub is_not_zero : Option ℤ → Bool
is_not_zero none = true
is_not_zero (some code) = not (is_zero code)

-- the conditions of `_rejected_reason_codes` and the two after it
abbrev pub reason_conditions :
    ℤ → Option ℤ → Bool → Option String → Option String → List (Bool × String)
reason_conditions builder_exit runner_exit run_commands worktree_error patch_error =
    (not (is_zero builder_exit), "codex_builder_failed")
    ∷ (run_commands && is_not_zero runner_exit, "verification_failed")
    ∷ (not run_commands, "verification_skipped")
    ∷ (not (is_none worktree_error), "worktree_creation_failed")
    ∷ (not (is_none patch_error), "patch_export_failed")
    ∷ []

abbrev pub detail_of : Option String → String
detail_of none = ""
detail_of (some text) = append_text ": " text

-- `_next_actions`
unfoldable pub next_actions :
    CreationObject
    → List String
    → List String
    → Bool
    → Option String
    → Option String
    → Option String
    → List String
next_actions creation reasons commands run_commands promotion_error worktree_error patch_error =
    let actions = flags (
      (
        contains "codex_builder_failed" reasons,
        "Inspect builder-output.json and rerun the builder.",
      )
      ∷ (
        contains "verification_failed" reasons,
        append_text "Fix failing verification: " (join_with ", " commands),
      )
      ∷ (
        contains "promotion_failed" reasons,
        append_text "Inspect promotion failure" (detail_of promotion_error),
      )
      ∷ (
        contains "worktree_creation_failed" reasons,
        append_text "Repair task worktree setup" (detail_of worktree_error),
      )
      ∷ (
        contains "patch_export_failed" reasons,
        append_text "Repair patch export" (detail_of patch_error),
      )
      ∷ (contains "verification_skipped" reasons, "Run verification commands before promotion.")
      ∷ []) in
    if not (is_empty reasons)
    then actions
    else if run_commands
    then creation.continuation_reason ∷ []
    else "Run verification commands before promotion." ∷ creation.continuation_reason ∷ []

-- the reasons that stand before the promotion
abbrev pub reasons_before :
    Environment → CreationObject → Bool → Option String → Option String → List String
reasons_before env creation run_commands worktree_error patch_error =
    let has_worktree = is_none worktree_error in
    let builder_exit = if has_worktree then env.builder_exit_code else pos 1 in
    let verified = run_verification env 0 (commands_of creation.verification_commands) (pos 0) in
    let runner_exit = if run_commands && has_worktree then some verified.0 else none in
    flags (reason_conditions builder_exit runner_exit run_commands worktree_error patch_error)

abbrev pub promotes : Environment → CreationObject → Bool → Option String → Option String → Bool
promotes env creation run_commands worktree_error patch_error =
    is_empty (reasons_before env creation run_commands worktree_error patch_error) && run_commands

-- what is asked before the promotion
abbrev pub events_before : Environment → CreationObject → Bool → Option String → List Event
events_before env creation run_commands worktree_error =
    let has_worktree = is_none worktree_error in
    let verified = run_verification env 0 (commands_of creation.verification_commands) (pos 0) in
    flags ((run_commands, worktree_created) ∷ (has_worktree, built) ∷ [])
    ++ (if run_commands && has_worktree then verified.1 ++ patched ∷ [] else [])

-- the promotion and the report
unfoldable pub cycle_report :
    Environment → CreationObject → Bool → Option String → Option String → CreationCycleReport
cycle_report env creation run_commands worktree_error patch_error =
    let commands = commands_of creation.verification_commands in
    let has_worktree = is_none worktree_error in
    let verifying = run_commands && has_worktree in
    let verified = run_verification env 0 commands (pos 0) in
    let promoting = promotes env creation run_commands worktree_error patch_error in
    let promotion_error = if promoting then env.promote_task else none in
    let reasons =
      reasons_before env creation run_commands worktree_error patch_error
      ++ flags ((not (is_none promotion_error), "promotion_failed") ∷ []) in
    record {
      accepted = is_empty reasons;
      status = if is_empty reasons then creation.status else "needs_fix";
      runner_exit_code = if verifying then some verified.0 else none;
      rejected_reason_codes = reasons;
      next_actions =
          next_actions creation reasons commands run_commands promotion_error worktree_error
            patch_error;
      trace =
          events_before env creation run_commands worktree_error
          ++ flags ((promoting, promoted) ∷ []);
    }

-- The steps after the builder, of which the verification and the patch need a worktree.
unfoldable pub finish_cycle :
    Environment → CreationObject → Bool → Option String → Outcome CreationCycleReport
finish_cycle env creation run_commands worktree_error =
    (if run_commands && is_none worktree_error then failure_of env.write_patch else ok none)
    >>= λ patch_error. ok (cycle_report env creation run_commands worktree_error patch_error)

unfoldable pub run_creation_cycle :
    Environment → CreationObject → Bool → Outcome CreationCycleReport
run_creation_cycle env creation run_commands =
    (if run_commands then failure_of env.create_task_worktree else ok none) >>= λ worktree_error.
    finish_cycle env creation run_commands worktree_error
