-- ===== src/Autonomy/Cycle/Acceptance.antt =====
-- When a creation cycle promotes a change, and when it reports it as accepted.
use crypto_research_agent.Common.{
  ◌≡◌, ◌↔◌, &&_iff, refl, sym, subst, ◌∙◌, String, Bool, true, false, ◌&&◌, Option, none,
  if◌then◌else◌, All, any, is_none, ok, bind-ok, ok_injective,
}
use crypto_research_agent.Common.Int.{pos}
use crypto_research_agent.Autonomy.Cycle.{
  Attempt, succeeded, failed, raised, Environment, CreationObject, CreationCycleReport, failure_of,
  commands_of, promotes, cycle_report, finish_cycle, run_creation_cycle,
}
use crypto_research_agent.Autonomy.Cycle.Trace.{IsSafeEvent, AllPassed}
use crypto_research_agent.Autonomy.Cycle.Promotion.{
  is_promoted, is_none_iff, some≢none, false≢true, promotes_iff, trace-IsSafeEvent,
  promoted-promotes, accepted-promotes,
}

-- What a promotion waits for.
pub record IsPromotable (env : Environment) (creation : CreationObject) (run_commands : Bool)
    : Type 0 where
  pub runs : run_commands ≡ true
  pub worktree : env.create_task_worktree ≡ succeeded
  pub builder : env.builder_exit_code ≡ pos 0
  pub commands : AllPassed env 0 (commands_of creation.verification_commands)
  pub patch : env.write_patch ≡ succeeded

-- An attempt that is made under a condition that holds.
asked :
    (c : Bool) (a : Attempt) {o : Option String}
    → (if c then failure_of a else ok none) ≡ ok o
    → c ≡ true
    → (o ≡ none) ↔ (a ≡ succeeded)
asked false a h e = absurd (false≢true e)
asked true succeeded {o = o} h e = (λ _. refl, λ _. sym (ok_injective h))
asked true (failed text) {o = o} h e = (λ x. absurd (some≢none (ok_injective h ∙ x)), λ x. cc)
asked true (raised error) {o = o} h e = cc

-- A run of the cycle that ends with a report promotes the change exactly when commands are run, the
-- worktree was made, the builder ended with zero, every verification command was allowed and ended with
-- an exit code of at most zero, which that of a signal is too, and the patch was written; it accepts the
-- change exactly when the promotion then succeeds too. The arguments of every command that ran were
-- vetted: a test is among them, none is one of the refused options, and none that is not an option is an
-- absolute path or goes up to a parent. Paths that an option carries are not looked at.
pub run_creation_cycle-IsPromotable_iff :
    (env : Environment) (creation : CreationObject) (run_commands : Bool) {r : CreationCycleReport}
    → run_creation_cycle env creation run_commands ≡ ok r
    → ((any is_promoted r.trace ≡ true) ↔ IsPromotable env creation run_commands)
      × ((r.accepted ≡ true) ↔ (IsPromotable env creation run_commands × (env.promote_task ≡ none)))
      × All IsSafeEvent r.trace
unfolding run_creation_cycle finish_cycle
run_creation_cycle-IsPromotable_iff env creation run_commands {r = r} h =
    let (w, worktree, h) =
      bind-ok (if run_commands then failure_of env.create_task_worktree else ok none) _ h in
    let (p, patch, h) =
      bind-ok (if run_commands && is_none w then failure_of env.write_patch else ok none) _ h in
    let (from, back) = promotes_iff env creation run_commands w p in
    let both : (run_commands ≡ true) → (w ≡ none) → (run_commands && is_none w) ≡ true =
      λ runs no_worktree. rw (runs, no_worktree) refl in
    let promotable : (promotes env creation run_commands w p ≡ true)
        ↔ IsPromotable env creation run_commands =
      (
        λ e.
            let (runs, no_worktree, builder, commands, no_patch) = from e in
            record {
              runs = runs;
              worktree = (asked run_commands env.create_task_worktree worktree runs).0 no_worktree;
              builder = builder;
              commands = commands;
              patch =
                  (asked (run_commands && is_none w) env.write_patch patch
                      (both runs no_worktree)).0
                    no_patch;
            },
        λ q.
            let no_worktree =
              (asked run_commands env.create_task_worktree worktree q.runs).1 q.worktree in
            let no_patch =
              (asked (run_commands && is_none w) env.write_patch patch (both q.runs no_worktree)).1
                q.patch in
            back (q.runs, no_worktree, q.builder, q.commands, no_patch),
      ) in
    let report = cycle_report env creation run_commands w p in
    let accepted = accepted-promotes env creation run_commands w p in
    subst
      (λ x.
        ((any is_promoted x.trace ≡ true) ↔ IsPromotable env creation run_commands)
        × ((x.accepted ≡ true)
            ↔ (IsPromotable env creation run_commands × (env.promote_task ≡ none)))
        × All IsSafeEvent x.trace)
      (ok_injective h)
      (
        (
          λ e. promotable.0 (sym (promoted-promotes env creation run_commands w p) ∙ e),
          λ q. promoted-promotes env creation run_commands w p ∙ promotable.1 q,
        ),
        (
          λ e.
              let (promoting, clean) =
                (&&_iff (promotes env creation run_commands w p) (is_none env.promote_task)).0
                  (sym accepted ∙ e) in
              (promotable.0 promoting, (is_none_iff env.promote_task).0 clean),
          λ (q, clean).
              accepted
              ∙ (&&_iff (promotes env creation run_commands w p) (is_none env.promote_task)).1
                  (promotable.1 q, (is_none_iff env.promote_task).1 clean),
        ),
        trace-IsSafeEvent env creation run_commands w p,
      )
