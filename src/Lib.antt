-- ===== src/Lib.antt =====
-- The risk and evidence core of crypto_alpha_agent, a research agent that looks for trading strategies,
-- tests them on history and on paper, and may at most ask a human to review a tiny live rollout.
--
-- A strategy passes through these parts. Its history is cut into walk-forward windows and its
-- expectancies go through a gate (src/crypto_alpha_agent/validation). The paper gate decides whether it
-- may be traded on paper (risk/paper_gate.py), and the guardian whether one opportunity may be executed
-- (risk/guardian.py). Orders run on a simulated account (execution/paper.py). The recorded outcomes and
-- the validation evidence give a package and an evaluation of the rollout gates (risk/rollout.py), from
-- which the readiness artifact (evidence/live_readiness.py) and the review decision are made. Calls of
-- the language model are repeated by llm/runtime.py. One validator of history is the one of momentum
-- (validation/momentum.py), which trades on a backtest (backtest/vectorbt_runner.py). What a simulated
-- trade costs is estimated by execution/cost_model.py, and the records that all this leaves are checked
-- by evidence/models.py. Runs that collect evidence keep each other out by a lock file
-- (pipeline/evidence_run_ops.py). A cycle asks a language model for the next iteration and reports the
-- candidates that the charter guard and its own rules let pass (pipeline/iteration_controller.py,
-- risk/charter_guard.py); another lets a builder change the code, verifies the change in a sandbox and
-- promotes it (autonomy/cycle.py).
--
-- Files, with the code below src/crypto_alpha_agent that each models:
--   Common                shared names; Common/Float is Python's float as an interface, Common/Dict a
--                         dict with text keys, Common/Raising a value or an exception
--   Common/Float/Fixed    fixed-point numbers that satisfy the laws of the interface
--   Risk/Guardian         risk/guardian.py, agents/approvals.py
--   Risk/Charter          risk/charter_guard.py: `guard_generated_idea`
--   Risk/PaperGate        risk/paper_gate.py: `evaluate_paper_eligibility` and its validators
--   Risk/Rollout          risk/rollout.py: observations, splits, losses, `evaluate_rollout`; its child
--                         Building is the evidence package
--   Risk/Review           risk/rollout.py: `build_rollout_review_artifact`
--   Risk/Feasibility      risk/feasibility.py: `score_feasibility`
--   Risk/Ranking          risk/ranker.py: `rank_candidate_ideas`
--   Evidence/Models       the records of evidence/models.py and evidence/paper.py
--   Evidence/Json         evidence/models.py: `_freeze_json_safe_value` and `_thaw_json_safe_value`
--   Evidence/Checks       evidence/models.py: the validators of candidates, outcomes and runs; its child
--                         Validation is `ValidationEvidence` with its canonical id
--   Evidence/Aggregate    evidence/paper.py: `aggregate_paper_evidence`
--   Evidence/Readiness    evidence/live_readiness.py
--   Execution/Paper       execution/paper.py: orders on a `PaperAccount`; its children Marking and
--                         RoundTrip are the valuation and the round trip, the others proofs
--   Execution/Cost        execution/cost_model.py: the models and default tables; its child Estimate is
--                         `estimate_execution_cost`
--   Backtest              backtest/vectorbt_runner.py
--   Validation            validation/walk_forward.py, validation/gates.py and, in Validation/Momentum,
--                         validation/momentum.py
--   Pipeline/RunLock      pipeline/evidence_run_ops.py: `EvidenceRunLock`
--   Pipeline/Iteration    pipeline/iteration_controller.py: `build_iteration_cycle_report`
--   Autonomy/Runner       autonomy/cycle.py: the commands that a verification may run
--   Autonomy/Cycle        autonomy/cycle.py: `run_creation_cycle`
--   Llm/Retry             llm/runtime.py: `_retry_structured_output`
--   Examples              the theorems at concrete inputs
--
-- Conventions. A function that may raise gives an `Outcome`, with the exception as a value. A method
-- of the paper account gives its outcome together with the account that it leaves, since an
-- assignment that is refused can follow others that were not. Constraints of the pydantic models are
-- tests where the model is built. Floats are a parameter `F` with the operations of `Float`; a
-- theorem that depends on their order names `IsOrdered`, and one that depends on a rounded quotient
-- names `IsRounding`. NaN is a value that is not at most itself, and nothing is assumed of overflow
-- but that short literals are finite.
--
-- Parameters stand for code that is not in the repository, or that a library runs:
-- `round_to_multiple` for the rounding of `decimal`, `elapsed_seconds` and `earlier` for `datetime`,
-- `hexdigest` for the digest of a payload's JSON, `split_command` for `shlex.split`, `matches`,
-- `capital_phrases` and `parse_amount` for the regular expressions of the charter guard as `re` runs
-- them, and the numbers that `float` reads in what they find, `decode` for `json.loads` and the
-- types of its values, `digest` for the hash of an answer's UTF-8, `float_of` for pydantic's
-- conversion of a whole number, `Numpy` for the means and extrema of arrays, `portfolio_value` for
-- the portfolio of vectorbt.
--
-- The lock is a state machine: the actions of the runs are a list, in the order in which they happen,
-- and the creation of the lock file and the write of its content are two of them.
--
-- Fuel. The search of momentum signals has as many rounds as there are prices; each moves on by at
-- least one bar, and rounds that are used up before the end are an error. The loop that generates
-- windows has as many rounds as there are bars and one more; its start grows by a positive step, so
-- it ends before them. The retry loop counts its attempts.
--
-- Not modelled: the ledgers (SQLite; their rows are arguments), the regular expressions of the
-- charter, the prose of checklist items, the mappings that an aggregation of evidence reads, the
-- other strategy validators, the other pipelines, git, docker and the files that the creation cycle
-- writes, network adapters, reports and the command line.
pub mod Common
pub mod Risk
pub mod Validation
pub mod Evidence
pub mod Execution
pub mod Backtest
pub mod Pipeline
pub mod Autonomy
pub mod Llm
mod Examples
