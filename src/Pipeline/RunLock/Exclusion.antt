-- ===== src/Pipeline/RunLock/Exclusion.antt =====
-- At most one run is inside the lock, whatever the order in which runs act.
use crypto_research_agent.Common.{
  ℕ, ◌≡◌, ◌≢◌, refl, sym, ap, ◌∙◌, String, Bool, true, false, List, [], ◌∷◌, arith, inl, inr, ◌==◌,
  ==_iff, Bool-cases, eq_refl, string_eq,
}
use crypto_research_agent.Pipeline.RunLock.{
  LockFile, absent, unreadable, held_by, Phase, outside, writing, acquired, World, set_phase,
  create_lock, release, Action, enter, write_payload, fail_write, exit, enter_from, write_from,
  fail_from, exit_from, act, act_all, free_world,
}

abbrev pub is_outside : Phase → Bool
is_outside outside = true
is_outside _ = false

-- A run that is not outside is the only one, and there is a file; with the lock it is the run's own.
record IsExclusive (run_id : ℕ → String) (w : World) : Type 0 where
  single : (p q : ℕ) → is_outside (w.phases p) ≡ false → is_outside (w.phases q) ≡ false → p ≡ q
  guarded : (p : ℕ) → is_outside (w.phases p) ≡ false → w.file ≢ absent
  owned : (p : ℕ) → w.phases p ≡ acquired → w.file ≡ held_by (run_id p)

pub set_phase-here : (p : ℕ) (x : Phase) (phases : ℕ → Phase) → set_phase p x phases p ≡ x
set_phase-here p x phases = ground arith

set_phase-other :
    (p q : ℕ) (x : Phase) (phases : ℕ → Phase)
    → (q == p) ≡ false
    → set_phase p x phases q ≡ phases q
set_phase-other p q x phases h = rw h refl

module _ (run_id : ℕ → String) where
  -- A run that moves while all others are outside.
  module _ (p : ℕ) (y : Phase) (file : LockFile) (phases : ℕ → Phase)
      (others : (q : ℕ) → (q == p) ≡ false → is_outside (phases q) ≡ true) where
    only : (q : ℕ) → is_outside (set_phase p y phases q) ≡ false → q ≡ p
    only q h = elim (Bool-cases (q == p)) [
      | inl e ↦ (==_iff q p).0 e
      | inr e ↦ ground (arith, others q e, ap is_outside (set_phase-other p q y phases e))
    ]

    set_phase-same : (q : ℕ) → q ≡ p → set_phase p y phases q ≡ y
    set_phase-same q e = ap (set_phase p y phases) e ∙ set_phase-here p y phases

    moved-IsExclusive :
        (is_outside y ≡ false → file ≢ absent)
        → (y ≡ acquired → file ≡ held_by (run_id p))
        → IsExclusive run_id (record { file = file; phases = set_phase p y phases })
    moved-IsExclusive present own = record {
      single = λ q r hq hr. only q hq ∙ sym (only r hr);
      guarded = λ q hq. present (sym (ap is_outside (set_phase-same q (only q hq))) ∙ hq);
      owned = λ q e.
          let same = only q (ap is_outside e) in
          own (sym (set_phase-same q same) ∙ e) ∙ ap (λ r. held_by (run_id r)) (sym same);
    }

  others_outside :
      (w : World) (p : ℕ)
      → IsExclusive run_id w
      → is_outside (w.phases p) ≡ false
      → (q : ℕ) → (q == p) ≡ false
      → is_outside (w.phases q) ≡ true
  others_outside w p h inside q other = elim (Bool-cases (is_outside (w.phases q))) [
    | inl e ↦ e
    | inr e ↦ let same : q ≡ p = h.single q p e inside in ground arith
  ]

  none_inside :
      (w : World)
      → IsExclusive run_id w
      → w.file ≡ absent
      → (q : ℕ) → is_outside (w.phases q) ≡ true
  none_inside w h gone q = elim (Bool-cases (is_outside (w.phases q))) [
    | inl e ↦ e
    | inr e ↦ absurd (h.guarded q e gone)
  ]

  enter_from-IsExclusive :
      (p : ℕ) (w : World) (x : Phase) (file : LockFile)
      → w.file ≡ file
      → IsExclusive run_id w
      → IsExclusive run_id (enter_from p x (create_lock file) w)
  enter_from-IsExclusive p w outside absent gone h =
      moved-IsExclusive p writing unreadable w.phases (λ q _. none_inside w h gone q) (λ _ e. cc)
        (λ e. cc)
  enter_from-IsExclusive p w outside unreadable _ h = h
  enter_from-IsExclusive p w outside (held_by r) _ h = h
  enter_from-IsExclusive p w writing absent _ h = h
  enter_from-IsExclusive p w writing unreadable _ h = h
  enter_from-IsExclusive p w writing (held_by r) _ h = h
  enter_from-IsExclusive p w acquired absent _ h = h
  enter_from-IsExclusive p w acquired unreadable _ h = h
  enter_from-IsExclusive p w acquired (held_by r) _ h = h

  write_from-IsExclusive :
      (p : ℕ) (w : World) (x : Phase)
      → w.phases p ≡ x
      → IsExclusive run_id w
      → IsExclusive run_id (write_from p (run_id p) x w)
  write_from-IsExclusive p w writing e h =
      moved-IsExclusive p acquired (held_by (run_id p)) w.phases
        (others_outside w p h (ap is_outside e)) (λ _ d. cc) (λ _. refl)
  write_from-IsExclusive p w outside e h = h
  write_from-IsExclusive p w acquired e h = h

  fail_from-IsExclusive :
      (p : ℕ) (w : World) (x : Phase)
      → w.phases p ≡ x
      → IsExclusive run_id w
      → IsExclusive run_id (fail_from p x w)
  fail_from-IsExclusive p w writing e h =
      moved-IsExclusive p outside w.file w.phases (others_outside w p h (ap is_outside e)) (λ d. cc)
        (λ d. cc)
  fail_from-IsExclusive p w outside e h = h
  fail_from-IsExclusive p w acquired e h = h

  exit_from-IsExclusive :
      (p : ℕ) (w : World) (x : Phase)
      → w.phases p ≡ x
      → IsExclusive run_id w
      → IsExclusive run_id (exit_from p (run_id p) x w)
  exit_from-IsExclusive p w acquired e h =
      moved-IsExclusive p outside (release (run_id p) w.file) w.phases
        (others_outside w p h (ap is_outside e)) (λ d. cc) (λ d. cc)
  exit_from-IsExclusive p w outside e h = h
  exit_from-IsExclusive p w writing e h = h

  act-IsExclusive :
      (a : Action) (w : World) → IsExclusive run_id w → IsExclusive run_id (act run_id a w)
  unfolding act
  act-IsExclusive (enter p) w h = enter_from-IsExclusive p w (w.phases p) w.file refl h
  act-IsExclusive (write_payload p) w h = write_from-IsExclusive p w (w.phases p) refl h
  act-IsExclusive (fail_write p) w h = fail_from-IsExclusive p w (w.phases p) refl h
  act-IsExclusive (exit p) w h = exit_from-IsExclusive p w (w.phases p) refl h

  act_all-IsExclusive :
      (actions : List Action) (w : World)
      → IsExclusive run_id w
      → IsExclusive run_id (act_all run_id actions w)
  unfolding act_all
  act_all-IsExclusive [] w h = h
  act_all-IsExclusive (a ∷ rest) w h =
      act_all-IsExclusive rest (act run_id a w) (act-IsExclusive a w h)

  free_world-IsExclusive : IsExclusive run_id free_world
  free_world-IsExclusive = record { single = λ p q h _. cc; guarded = λ p h. cc; owned = λ p e. cc }

  -- However the actions of any number of runs are interleaved, two runs that are not outside the lock
  -- are the same run, also while one has created the file and not yet written it, and after writes that
  -- failed.
  pub act_all-exclusive :
      (actions : List Action) (p q : ℕ)
      → is_outside ((act_all run_id actions free_world).phases p) ≡ false
      → is_outside ((act_all run_id actions free_world).phases q) ≡ false
      → p ≡ q
  act_all-exclusive actions p q =
      (act_all-IsExclusive actions free_world free_world-IsExclusive).single p q

  -- A run that holds the lock removes its file when it leaves, and then every run is outside.
  pub exit_frees :
      (actions : List Action) (p : ℕ)
      → (act_all run_id actions free_world).phases p ≡ acquired
      → ((act run_id (exit p) (act_all run_id actions free_world)).file ≡ absent)
        × ((q : ℕ)
            → is_outside ((act run_id (exit p) (act_all run_id actions free_world)).phases q)
              ≡ true)
  unfolding act
  exit_frees actions p e =
      let w = act_all run_id actions free_world in
      let h = act_all-IsExclusive actions free_world free_world-IsExclusive in
      let gone : release (run_id p) w.file ≡ absent =
        ap (release (run_id p)) (h.owned p e) ∙ rw (eq_refl (run_id p)) refl in
      let next = act-IsExclusive (exit p) w h in
      let removed : (act run_id (exit p) w).file ≡ absent = rw e gone in
      (removed, none_inside (act run_id (exit p) w) next removed)
