-- ===== src/Pipeline/Iteration/Records.antt =====
-- src/crypto_alpha_agent/pipeline/iteration_controller.py: the candidates, the input and the report of
-- an iteration cycle.
use crypto_research_agent.Common.{ℕ, String, Bool, Option, List}

pub data IterationCandidateKind : Type 0 where
  new_data_source new_strategy_validator validator_change : IterationCandidateKind
  experiment_parameter_change code_change_request : IterationCandidateKind

abbrev pub kind_text : IterationCandidateKind → String
kind_text new_data_source = "new_data_source"
kind_text new_strategy_validator = "new_strategy_validator"
kind_text validator_change = "validator_change"
kind_text experiment_parameter_change = "experiment_parameter_change"
kind_text code_change_request = "code_change_request"

pub data IterationCandidateRisk : Type 0 where
  low medium high blocked : IterationCandidateRisk

abbrev pub risk_text : IterationCandidateRisk → String
risk_text low = "low"
risk_text medium = "medium"
risk_text high = "high"
risk_text blocked = "blocked"

pub record IterationCandidate : Type 0 where
  pub kind : IterationCandidateKind
  pub title : String
  pub rationale : String
  pub evidence_refs : List String
  pub expected_value : String
  pub risk_level : IterationCandidateRisk
  pub next_actions : List String
  pub required_tests : List String
  pub required_data_fields : List String
  pub source_discovery_queries : List String
  pub source_probe_targets : List String
  pub strategy_family : Option String
  pub target_files : List String
  pub human_review_required : Bool
  pub direct_code_write_authorized : Bool
  pub uses_real_capital : Bool
  pub live_order_routing : Bool

pub record IterationCandidateBatch : Type 0 where
  pub candidates : List IterationCandidate
  pub rejected_reason_codes : List String
  pub uses_real_capital : Bool
  pub live_order_routing : Bool

pub record IterationControllerInput (F : Type 0) : Type 0 where
  pub strategy_family : Option String
  pub current_capital_usd : F
  pub max_candidates : ℕ

-- what a cycle takes of the research context and of the two other reports
pub record ResearchFigures : Type 0 where
  pub cycle_id : String
  pub research_evidence_refs : List String
  pub source_candidate_count : ℕ
  pub strategy_candidate_count : ℕ
  pub governance_family_count : ℕ

-- the dictionary of `_raw_response_metadata`, whose last two entries only a text has
pub record ResponseMetadata : Type 0 where
  pub status : String
  pub raw_response_type : String
  pub raw_response_length : Option ℕ
  pub raw_response_sha256 : Option String

-- the constant fields left aside, and with the metadata that `_report` sets beside the fields
pub record IterationCycleReport (F : Type 0) : Type 0 where
  pub cycle_id : String
  pub accepted : Bool
  pub candidates : List IterationCandidate
  pub rejected_reason_codes : List String
  pub evidence_refs : List String
  pub current_capital_usd : F
  pub strategy_family : Option String
  pub research_evidence_ref_count : ℕ
  pub source_candidate_count : ℕ
  pub strategy_candidate_count : ℕ
  pub governance_family_count : ℕ
  pub response_metadata : ResponseMetadata

-- what the call of the language model gives: a text, or a value of another type, with the type's name
pub data Response : Type 0 where
  answered : String → Response
  answered_otherwise : String → Response
