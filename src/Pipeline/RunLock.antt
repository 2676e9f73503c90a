-- ===== src/Pipeline/RunLock.antt =====
-- `EvidenceRunLock` of src/crypto_alpha_agent/pipeline/evidence_run_ops.py: a lock file that evidence
-- runs create and remove. Between the creation of the file and the write of its content other runs may
-- act, so they are two steps.
pub mod Exclusion
pub mod Progress
use crypto_research_agent.Common.{
  ℕ, String, Bool, true, false, List, [], ◌∷◌, if◌then◌else◌, ◌==◌, ◌=?◌, string_eq, Outcome, ok,
  err, runtime_error,
}

-- the file at the path of the lock: what `json.loads` gives of it
pub data LockFile : Type 0 where
  absent : LockFile
  unreadable : LockFile
  held_by : String → LockFile

-- where a run stands: `writing` is inside `__enter__`, after the file was created
pub data Phase : Type 0 where
  outside : Phase
  writing : Phase
  acquired : Phase

pub record World : Type 0 where
  pub file : LockFile
  pub phases : ℕ → Phase

abbrev pub set_phase : ℕ → Phase → (ℕ → Phase) → ℕ → Phase
set_phase p phase phases q = if q == p then phase else phases q

-- `os.open` with `O_CREAT | O_EXCL`
abbrev pub create_lock : LockFile → Outcome LockFile
create_lock absent = ok unreadable
create_lock _ = err (runtime_error "evidence-run lock is already held")

-- the removal in `__exit__`
abbrev pub release : String → LockFile → LockFile
release run_id (held_by other) = if other =? run_id then absent else held_by other
release run_id file = file

-- What a run does next; `fail_write` is an `os.write` that raises.
pub data Action : Type 0 where
  enter : ℕ → Action
  write_payload : ℕ → Action
  fail_write : ℕ → Action
  exit : ℕ → Action

abbrev pub enter_from : ℕ → Phase → Outcome LockFile → World → World
enter_from p outside (ok file) w = record { file = file; phases = set_phase p writing w.phases }
enter_from p _ _ w = w

abbrev pub write_from : ℕ → String → Phase → World → World
write_from p run_id writing w = record {
  file = held_by run_id;
  phases = set_phase p acquired w.phases;
}
write_from p run_id _ w = w

abbrev pub fail_from : ℕ → Phase → World → World
fail_from p writing w = record w { phases = set_phase p outside w.phases }
fail_from p _ w = w

abbrev pub exit_from : ℕ → String → Phase → World → World
exit_from p run_id acquired w = record {
  file = release run_id w.file;
  phases = set_phase p outside w.phases;
}
exit_from p run_id _ w = w

module _ (run_id : ℕ → String) where
  unfoldable pub act : Action → World → World
  act (enter p) w = enter_from p (w.phases p) (create_lock w.file) w
  act (write_payload p) w = write_from p (run_id p) (w.phases p) w
  act (fail_write p) w = fail_from p (w.phases p) w
  act (exit p) w = exit_from p (run_id p) (w.phases p) w

  -- the actions of all runs, in the order in which they happen
  unfoldable pub act_all : List Action → World → World
  act_all [] w = w
  act_all (a ∷ rest) w = act_all rest (act a w)

-- no run has started, and there is no file
abbrev pub free_world : World
free_world = record { file = absent; phases = λ _. outside }
