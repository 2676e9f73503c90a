-- ===== src/Pipeline/Iteration.antt =====
-- src/crypto_alpha_agent/pipeline/iteration_controller.py: which of the candidates that a language model
-- proposes for the next iteration a cycle reports. The research context, the two other reports that the
-- task shows and the hash of the cycle's id are arguments. `digest` and `decode` are parameters: the
-- hash of a text, and `json.loads` with the types of its values, where none stands for an error that the
-- code catches and an exception for one that it does not, as that of a nesting that is too deep.
pub mod Records
pub mod Selection
use crypto_research_agent.Common.{
  suc, ◌>>=◌, ℕ, ◌<◌, ◌&&◌, ◌||◌, String, Bool, true, false, not, Option, none, some, List, [], ◌∷◌,
  ◌++◌, if◌then◌else◌, is_empty, any, length, take, is_blank, is_subset, ltb, leb, Outcome, ok, err,
  validation_error, flags, string_eq, ◌=?◌,
}
use crypto_research_agent.Common.Dedupe.{dedupe}
use crypto_research_agent.Common.Float.{Float, is_nonneg}
use crypto_research_agent.Risk.Charter.Records.{
  Idea, text, flag, mapping, items, nothing, Ideas, nil, cons, Fields, end, field, Rule,
  CharterGuardDecision,
}
use crypto_research_agent.Risk.Charter.{guard_generated_idea}
use crypto_research_agent.Pipeline.Iteration.Records.{
  IterationCandidateKind, new_data_source, code_change_request, kind_text, risk_text,
  IterationCandidate, IterationCandidateBatch, IterationControllerInput, ResearchFigures,
  IterationCycleReport, ResponseMetadata, Response, answered, answered_otherwise,
}

-- what the models of the module refuse
abbrev pub is_valid_candidate : IterationCandidate → Bool
is_valid_candidate c =
    not (is_blank c.title)
    && not (is_blank c.rationale)
    && not (is_empty c.evidence_refs)
    && not (is_blank c.expected_value)
    && not (is_empty c.next_actions)
    && not (is_empty c.required_tests)
    && not (is_empty c.required_data_fields)

abbrev pub is_valid_batch : IterationCandidateBatch → Bool
is_valid_batch b =
    leb 1 (length b.candidates)
    && leb (length b.candidates) 10
    && leb (length b.rejected_reason_codes) 32
    && not (any (λ c. not (is_valid_candidate c)) b.candidates)

unfoldable pub texts : {F : Type 0} → List String → Ideas F
texts [] = nil
texts (s ∷ strings) = cons (text s) (texts strings)

abbrev pub text_or_nothing : {F : Type 0} → Option String → Idea F
text_or_nothing none = nothing
text_or_nothing (some s) = text s

-- `candidate.model_dump(mode="python")`
abbrev pub dump : {F : Type 0} → IterationCandidate → Idea F
dump c = mapping (
    field "kind" (text (kind_text c.kind)) (
      field "title" (text c.title) (
        field "rationale" (text c.rationale) (
          field "evidence_refs" (items (texts c.evidence_refs)) (
            field "expected_value" (text c.expected_value) (
              field "risk_level" (text (risk_text c.risk_level)) (
                field "next_actions" (items (texts c.next_actions)) (
                  field "required_tests" (items (texts c.required_tests)) (
                    field "required_data_fields" (items (texts c.required_data_fields)) (
                      field "source_discovery_queries" (items (texts c.source_discovery_queries)) (
                        field "source_probe_targets" (items (texts c.source_probe_targets)) (
                          field "strategy_family" (text_or_nothing c.strategy_family) (
                            field "target_files" (items (texts c.target_files)) (
                              field "human_review_required" (flag c.human_review_required) (
                                field "direct_code_write_authorized"
                                  (flag c.direct_code_write_authorized)
                                  (field "uses_real_capital" (flag c.uses_real_capital) (
                                    field "live_order_routing" (flag c.live_order_routing)
                                      end)))))))))))))))))

abbrev pub is_kind : IterationCandidateKind → IterationCandidateKind → Bool
is_kind kind other = kind_text kind =? kind_text other

abbrev pub owner_autonomy_refs : List String
owner_autonomy_refs =
    "goal:owner_autonomy_target" ∷ "gap:30_60_90_out_of_sample" ∷ "registry:strategy_families"
    ∷ "source_catalog:expansion_candidates" ∷ "governance:family_scoreboard" ∷ []

-- The set of the owner's references is listed in the order of the source, one of those that an
-- iteration over it can have.
unfoldable pub allowed_evidence_refs : List String → List String
allowed_evidence_refs refs = dedupe (refs ++ owner_autonomy_refs)

module _ {F : Type 0} ⦃f : Float F⦄ (parse_amount : String → Option F)
    (matches : Rule → String → Bool) (capital_phrases : String → List (String × F))
    (current_capital : F) (evidence_refs : List String) where
  -- the checks of `_candidate_rejection_reason` before the charter guard
  unfoldable pub form_rejection_reason : IterationCandidate → Option String
  form_rejection_reason c =
      if c.uses_real_capital
      then some "live_capital_requested"
      else if c.live_order_routing
      then some "live_order_routing_requested"
      else if not c.human_review_required
      then some "human_review_not_required"
      else if c.direct_code_write_authorized
      then some "direct_code_write_authorized"
      else if is_empty c.required_tests
      then some "missing_required_tests"
      else if not (is_subset c.evidence_refs evidence_refs)
      then some "missing_evidence_ref"
      else if is_kind c.kind code_change_request && is_empty c.target_files
      then some "missing_target_files"
      else if is_kind c.kind new_data_source
          && is_empty c.source_discovery_queries
          && is_empty c.source_probe_targets
      then some "missing_source_probe_plan"
      else none

  abbrev pub verdict_of : CharterGuardDecision F → Option String
  verdict_of d = if not d.approved then some "charter_violation" else none

  abbrev pub reason_or_guard : IterationCandidate → Option String → Outcome (Option String)
  reason_or_guard c (some reason) = ok (some reason)
  reason_or_guard c none =
      guard_generated_idea parse_amount matches capital_phrases (dump c) current_capital >>= λ d.
      ok (verdict_of d)

  -- `_candidate_rejection_reason`
  unfoldable pub candidate_rejection_reason : IterationCandidate → Outcome (Option String)
  candidate_rejection_reason c = reason_or_guard c (form_rejection_reason c)

  -- one turn of the loop over the candidates, with the candidates and the reasons so far
  abbrev pub sort_out :
      IterationCandidate
      → Option String
      → List IterationCandidate × List String
      → List IterationCandidate × List String
  sort_out c none (kept, reasons) = (kept ++ c ∷ [], reasons)
  sort_out c (some reason) (kept, reasons) = (kept, reasons ++ reason ∷ [])

  unfoldable pub select :
      List IterationCandidate
      → List IterationCandidate × List String
      → Outcome (List IterationCandidate × List String)
  select [] found = ok found
  select (c ∷ candidates) found =
      candidate_rejection_reason c >>= λ reason. select candidates (sort_out c reason found)

abbrev pub text_length : String → ℕ
text_length String.[] = 0
text_length (String.◌∷◌ c s) = suc (text_length s)

abbrev pub status_of : Bool → String
status_of accepted = if accepted then "accepted" else "rejected"

-- `_raw_response_metadata`; `digest` encodes a text in UTF-8, which may raise, and gives its SHA-256
unfoldable pub raw_response_metadata :
    (String → Outcome String) → Response → Bool → Outcome ResponseMetadata
raw_response_metadata digest (answered_otherwise name) accepted = ok (record {
  status = status_of accepted;
  raw_response_type = name;
  raw_response_length = none;
  raw_response_sha256 = none;
})
raw_response_metadata digest (answered s) accepted = digest s >>= λ sha. ok (record {
  status = status_of accepted;
  raw_response_type = "str";
  raw_response_length = some (text_length s);
  raw_response_sha256 = some sha;
})

abbrev pub requests : IterationCandidateBatch → List String
requests b = flags (
    (b.uses_real_capital, "live_capital_requested")
    ∷ (b.live_order_routing, "live_order_routing_requested")
    ∷ [])

module _ {F : Type 0} ⦃f : Float F⦄ (input : IterationControllerInput F)
    (figures : ResearchFigures) where
  -- `_report`
  abbrev pub report :
      ResponseMetadata → Bool → List IterationCandidate → List String → IterationCycleReport F
  report metadata accepted candidates reasons = record {
    cycle_id = figures.cycle_id;
    accepted = accepted;
    candidates = candidates;
    rejected_reason_codes = dedupe reasons;
    evidence_refs = allowed_evidence_refs figures.research_evidence_refs;
    current_capital_usd = input.current_capital_usd;
    strategy_family = input.strategy_family;
    research_evidence_ref_count = length figures.research_evidence_refs;
    source_candidate_count = figures.source_candidate_count;
    strategy_candidate_count = figures.strategy_candidate_count;
    governance_family_count = figures.governance_family_count;
    response_metadata = metadata;
  }

  -- what follows the loop
  abbrev pub is_accepted : IterationCandidateBatch → List IterationCandidate × List String → Bool
  is_accepted b found =
      not (is_empty found.0) && not b.uses_real_capital && not b.live_order_routing

  unfoldable pub report_of_found :
      ResponseMetadata
      → IterationCandidateBatch
      → List IterationCandidate × List String
      → IterationCycleReport F
  report_of_found metadata b found =
      report metadata (is_accepted b found) found.0 (
        dedupe
          (found.1 ++ flags ((not (is_accepted b found), "no_safe_iteration_candidates") ∷ [])))

  module _ (parse_amount : String → Option F) (matches : Rule → String → Bool)
      (capital_phrases : String → List (String × F)) where
    module _ (digest : String → Outcome String) where
      unfoldable pub report_of_batch :
          String → IterationCandidateBatch → Outcome (IterationCycleReport F)
      report_of_batch s b =
          let refs = allowed_evidence_refs figures.research_evidence_refs in
          select parse_amount matches capital_phrases input.current_capital_usd refs
            (take input.max_candidates b.candidates) ([], requests b)
          >>= λ found.
              raw_response_metadata digest (answered s) (is_accepted b found) >>= λ metadata.
              ok (report_of_found metadata b found)

      module _ (decode : String → Outcome (Option IterationCandidateBatch)) where
        abbrev pub report_of_payload :
            ResponseMetadata
            → String
            → Option IterationCandidateBatch
            → Outcome (IterationCycleReport F)
        report_of_payload metadata s none =
            ok (report metadata false [] ("invalid_llm_schema" ∷ []))
        report_of_payload metadata s (some b) =
            if is_valid_batch b
            then report_of_batch s b
            else ok (report metadata false [] ("invalid_llm_schema" ∷ []))

        abbrev pub report_of_response :
            ResponseMetadata → Response → Outcome (IterationCycleReport F)
        report_of_response metadata (answered_otherwise name) =
            ok (report metadata false [] ("invalid_llm_response_type" ∷ []))
        report_of_response metadata (answered s) = decode s >>= λ o. report_of_payload metadata s o

        -- `IterationControllerInput` refuses a negative capital and a number of candidates beyond ten.
        unfoldable pub build_iteration_cycle_report : Response → Outcome (IterationCycleReport F)
        build_iteration_cycle_report response =
            if is_nonneg input.current_capital_usd
              && leb 1 input.max_candidates
              && leb input.max_candidates 10
            then (raw_response_metadata digest response false >>= λ metadata.
                report_of_response metadata response)
            else err (validation_error "IterationControllerInput")
