-- ===== src/Pipeline/RunLock/Progress.antt =====
-- The lock becomes free again: what a run that arrives after the holder left can count on.
use crypto_research_agent.Common.{ℕ, ◌≡◌, refl, String, true, List, [], ◌∷◌, ◌++◌}
use crypto_research_agent.Pipeline.RunLock.{
  absent, Phase, outside, writing, acquired, World, set_phase, create_lock, Action, enter,
  write_payload, exit, enter_from, act, act_all, free_world,
}
use crypto_research_agent.Pipeline.RunLock.Exclusion.{is_outside, set_phase-here, exit_frees}

outside_of : (x : Phase) → is_outside x ≡ true → x ≡ outside
outside_of outside e = refl
outside_of writing e = cc
outside_of acquired e = cc

module _ (run_id : ℕ → String) where
  act_all-append :
      (before after : List Action) (w : World)
      → act_all run_id (before ++ after) w ≡ act_all run_id after (act_all run_id before w)
  unfolding act_all
  act_all-append [] after w = refl
  act_all-append (a ∷ before) after w = act_all-append before after (act run_id a w)

  -- A run that enters a free lock and writes its content holds the lock.
  enters_free :
      (q : ℕ) (w : World)
      → w.file ≡ absent
      → w.phases q ≡ outside
      → (act_all run_id (enter q ∷ write_payload q ∷ []) w).phases q ≡ acquired
  unfolding act act_all
  enters_free q w free out =
      let entered : enter_from q (w.phases q) (create_lock w.file) w
          ≡ enter_from q outside (create_lock absent) w =
        rw (free, out) refl in
      rw entered (
        rw (set_phase-here q writing w.phases)
          (set_phase-here q acquired (set_phase q writing w.phases)))

  -- Once the run that holds the lock has left, any run that enters and writes its content acquires the
  -- lock, whatever happened before, writes that failed included.
  pub act_all-acquires :
      (actions : List Action) (p q : ℕ)
      → (act_all run_id actions free_world).phases p ≡ acquired
      → (act_all run_id (actions ++ exit p ∷ enter q ∷ write_payload q ∷ []) free_world).phases q
        ≡ acquired
  unfolding act_all
  act_all-acquires actions p q held =
      let w = act_all run_id actions free_world in
      let left = act run_id (exit p) w in
      let (free, out) = exit_frees run_id actions p held in
      rw (act_all-append actions (exit p ∷ enter q ∷ write_payload q ∷ []) free_world)
        (enters_free q left free (outside_of (left.phases q) (out q)))
