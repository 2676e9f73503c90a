-- ===== src/Pipeline/Iteration/Selection.antt =====
-- Which candidates a cycle reports, by an independent description of an acceptable candidate.
use crypto_research_agent.Common.{
  Outcome, Option-cases, ◌≤◌, ◌≡◌, refl, sym, ap, subst, ◌∙◌, String, Bool, true, false, not, ◌&&◌,
  ◌||◌, Option, none, some, List, [], ◌∷◌, ◌++◌, arith, inl, inr, is_empty, keep, take, length, All,
  All-keep, length-keep-le, length-take, is_subset, IsDistinct, leb, ok, Bool-cases, string_eq,
}
use mathlib.Core.List.{append-nil, append_assoc}
use crypto_research_agent.Common.Dedupe.{dedupe_clean}
use crypto_research_agent.Common.Float.{Float, IsOrdered, is_nonneg}
use crypto_research_agent.Risk.Charter.Records.{Rule}
use crypto_research_agent.Risk.Charter.Collected.{is_some, is_unsafe}
use crypto_research_agent.Risk.Charter.Texts.{HasAmounts}
use crypto_research_agent.Risk.Charter.Safety.{guard_generated_idea-approves}
use crypto_research_agent.Pipeline.Iteration.Records.{
  IterationCandidate, IterationCandidateBatch, new_data_source, code_change_request,
  IterationControllerInput, ResearchFigures, IterationCycleReport, ResponseMetadata, Response,
  answered, answered_otherwise,
}
use crypto_research_agent.Pipeline.Iteration.{
  text_length, status_of, is_accepted, raw_response_metadata, form_rejection_reason, verdict_of,
  reason_or_guard, report_of_found, is_valid_batch, dump, is_kind, allowed_evidence_refs,
  candidate_rejection_reason, sort_out, select, requests, report, report_of_batch,
  report_of_payload, report_of_response, build_iteration_cycle_report,
}

module _ {F : Type 0} ⦃f : Float F⦄ (parse_amount : String → Option F)
    (matches : Rule → String → Bool) (capital_phrases : String → List (String × F)) (capital : F)
    (refs : List String) where
  -- The candidate asks for nothing live and for human review, writes no code by itself, has tests, cites
  -- only the references, has what its kind needs, and keeps to the charter.
  unfoldable pub is_acceptable : IterationCandidate → Bool
  is_acceptable c =
      not c.uses_real_capital
      && not c.live_order_routing
      && c.human_review_required
      && not c.direct_code_write_authorized
      && not (is_empty c.required_tests)
      && is_subset c.evidence_refs refs
      && (not (is_kind c.kind code_change_request) || not (is_empty c.target_files))
      && (not (is_kind c.kind new_data_source)
          || not (is_empty c.source_discovery_queries)
          || not (is_empty c.source_probe_targets))
      && not (is_unsafe parse_amount matches capital_phrases capital none (dump c))

module _ {F : Type 0} ⦃f : Float F⦄ (parse_amount : String → Option F)
    (matches : Rule → String → Bool) (capital_phrases : String → List (String × F))
    (input : IterationControllerInput F) where
  -- The reported candidates are the acceptable ones, at most as many as asked for, the references are the
  -- report's own, an accepted report has a candidate, and no reason stands twice.
  abbrev pub IsSafeReport : IterationCycleReport F → Type 0
  IsSafeReport r =
      All
        (λ c.
          is_acceptable parse_amount matches capital_phrases input.current_capital_usd
            r.evidence_refs c
          ≡ true)
        r.candidates
      × (length r.candidates ≤ input.max_candidates)
      × (r.accepted ≡ true → is_empty r.candidates ≡ false)
      × IsDistinct r.rejected_reason_codes

module _ {F : Type 0} ⦃f : Float F⦄ (laws : IsOrdered F) (parse_amount : String → Option F)
    (matches : Rule → String → Bool) (capital_phrases : String → List (String × F)) where
  module _ (capital : F) (refs : List String) (valid : is_nonneg capital ≡ true) where
    abbrev acceptable : IterationCandidate → Bool
    acceptable = is_acceptable parse_amount matches capital_phrases capital refs

    -- The reason is found, and there is none exactly for an acceptable candidate.
    candidate_rejection_reason-ok :
        (c : IterationCandidate)
        → HasAmounts capital_phrases (dump c)
        → (o : Option String) × (candidate_rejection_reason parse_amount matches capital_phrases
              capital refs c
            ≡ ok o)
          × (is_some o ≡ not (acceptable c))
    unfolding candidate_rejection_reason form_rejection_reason is_acceptable
    candidate_rejection_reason-ok c phrases =
        let form = form_rejection_reason parse_amount matches capital_phrases capital refs c in
        let (d, decided, says) =
          guard_generated_idea-approves laws parse_amount matches capital_phrases (dump c) capital
            phrases valid in
        elim (Option-cases form) [
          | inl e ↦ (
            verdict_of parse_amount matches capital_phrases capital refs d,
            ap (reason_or_guard parse_amount matches capital_phrases capital refs c) e
                ∙ rw decided refl,
            ground (arith, says, ap is_some e),
          )
          | inr (reason, e) ↦ (
            some reason,
            ap (reason_or_guard parse_amount matches capital_phrases capital refs c) e,
            ground (arith, ap is_some e),
          )
        ]

    sort_out-keeps :
        (c : IterationCandidate) (rest : List IterationCandidate) (o : Option String)
        (kept : List IterationCandidate) (reasons : List String)
        → is_some o ≡ not (acceptable c)
        → (sort_out parse_amount matches capital_phrases capital refs c o (kept, reasons)).0
            ++ keep acceptable rest
          ≡ kept ++ keep acceptable (c ∷ rest)
    sort_out-keeps c rest none kept reasons e =
        let good : acceptable c ≡ true = ground arith in
        rw good (append_assoc kept (c ∷ []) (keep acceptable rest))
    sort_out-keeps c rest (some reason) kept reasons e =
        let bad : acceptable c ≡ false = ground arith in rw bad refl

    select-keeps :
        (candidates : List IterationCandidate) (found : List IterationCandidate × List String)
        → All (λ c. HasAmounts capital_phrases (dump c)) candidates
        → (selected : List IterationCandidate × List String) × (select parse_amount matches
              capital_phrases capital refs candidates found
            ≡ ok selected)
          × (selected.0 ≡ found.0 ++ keep acceptable candidates)
    unfolding select
    select-keeps [] (kept, reasons) h = ((kept, reasons), refl, sym (append-nil kept))
    select-keeps (c ∷ candidates) (kept, reasons) (p, h) =
        let (o, judged, says) = candidate_rejection_reason-ok c p in
        let (selected, made, keeps) =
          select-keeps candidates
            (sort_out parse_amount matches capital_phrases capital refs c o (kept, reasons)) h in
        (selected, rw judged made, keeps ∙ sort_out-keeps c candidates o kept reasons says)

  module _ (input : IterationControllerInput F) (figures : ResearchFigures) where
    -- the references of the report, and the candidates that are looked at
    abbrev references : List String
    references = allowed_evidence_refs figures.research_evidence_refs

    abbrev shown : IterationCandidateBatch → List IterationCandidate
    shown b = take input.max_candidates b.candidates

    abbrev acceptable_shown : IterationCandidateBatch → List IterationCandidate
    acceptable_shown b =
        keep
          (is_acceptable parse_amount matches capital_phrases input.current_capital_usd references)
          (shown b)

    no_candidates :
        (metadata : ResponseMetadata) (reason : String)
        → IsSafeReport parse_amount matches capital_phrases input
            (report input figures metadata false [] (reason ∷ []))
    no_candidates metadata reason = (tt, omega arith, λ e. cc, (dedupe_clean (reason ∷ [])).0)

    report_of_found-IsSafeReport :
        (metadata : ResponseMetadata) (b : IterationCandidateBatch)
        (found : List IterationCandidate × List String)
        → found.0 ≡ acceptable_shown b
        → IsSafeReport parse_amount matches capital_phrases input
            (report_of_found input figures metadata b found)
    unfolding report_of_found
    report_of_found-IsSafeReport metadata b found kept =
        let acceptable =
          is_acceptable parse_amount matches capital_phrases input.current_capital_usd references in
        (
          subst (All (λ c. acceptable c ≡ true)) (sym kept) (All-keep acceptable (shown b)),
          omega (
            arith,
            ap length kept,
            length-keep-le acceptable (shown b),
            length-take input.max_candidates b.candidates,
          ),
          λ e. ground arith,
          (dedupe_clean _).0,
        )

    module _ (digest : String → Outcome String)
        (valid_capital : is_nonneg input.current_capital_usd ≡ true) where
      report_of_batch-ok :
          (s sha : String) (b : IterationCandidateBatch)
          → digest s ≡ ok sha
          → All (λ c. HasAmounts capital_phrases (dump c)) (shown b)
          → (metadata : ResponseMetadata) × (found : List IterationCandidate × List String)
            × (report_of_batch input figures parse_amount matches capital_phrases digest s b
                ≡ ok (report_of_found input figures metadata b found))
            × (found.0 ≡ acceptable_shown b)
      unfolding report_of_batch raw_response_metadata
      report_of_batch-ok s sha b hashed phrases =
          let (found, made, kept) =
            select-keeps input.current_capital_usd references valid_capital (shown b)
              ([], requests b) phrases in
          let told : ResponseMetadata = record {
            status = status_of (is_accepted input figures b found);
            raw_response_type = "str";
            raw_response_length = some (text_length s);
            raw_response_sha256 = some sha;
          } in
          (told, found, rw (made, hashed) refl, kept)

      report_of_payload-IsSafeReport :
          (decode : String → Outcome (Option IterationCandidateBatch)) (metadata : ResponseMetadata)
          (s sha : String) (o : Option IterationCandidateBatch)
          → digest s ≡ ok sha
          → ((b : IterationCandidateBatch)
              → o ≡ some b
              → All (λ c. HasAmounts capital_phrases (dump c)) (shown b))
          → (r : IterationCycleReport F) × (report_of_payload input figures parse_amount matches
                capital_phrases digest decode metadata s o
              ≡ ok r)
            × IsSafeReport parse_amount matches capital_phrases input r
      report_of_payload-IsSafeReport decode metadata s sha none hashed phrases =
          (_, refl, no_candidates metadata "invalid_llm_schema")
      report_of_payload-IsSafeReport decode metadata s sha (some b) hashed phrases =
          let (told, found, made, kept) = report_of_batch-ok s sha b hashed (phrases b refl) in
          elim (Bool-cases (is_valid_batch b)) [
            | inl e ↦ (
              report_of_found input figures told b found,
              rw e made,
              report_of_found-IsSafeReport told b found kept,
            )
            | inr e ↦ (
              report input figures metadata false [] ("invalid_llm_schema" ∷ []),
              rw e refl,
              no_candidates metadata "invalid_llm_schema",
            )
          ]

    module _ (digest : String → Outcome String)
        (decode : String → Outcome (Option IterationCandidateBatch))
        (valid_capital : is_nonneg input.current_capital_usd ≡ true)
        (at_least : leb 1 input.max_candidates ≡ true)
        (at_most : leb input.max_candidates 10 ≡ true) where
      -- The answer is no text, or one that can be hashed and decoded, maybe to no batch, and whose candidates
      -- name only amounts that are finite and at least zero.
      abbrev pub IsReadable : Response → Type 0
      IsReadable (answered_otherwise name) = Unit
      IsReadable (answered s) =
          (sha : String) × (o : Option IterationCandidateBatch) × (digest s ≡ ok sha)
          × (decode s ≡ ok o)
          × ((b : IterationCandidateBatch)
              → o ≡ some b
              → All (λ c. HasAmounts capital_phrases (dump c)) (shown b))

      build_iteration_cycle_report-valid :
          (response : Response) (metadata : ResponseMetadata)
          → raw_response_metadata digest response false ≡ ok metadata
          → build_iteration_cycle_report input figures parse_amount matches capital_phrases digest
              decode response
            ≡ report_of_response input figures parse_amount matches capital_phrases digest decode
                metadata response
      unfolding build_iteration_cycle_report
      build_iteration_cycle_report-valid response metadata told =
          rw (valid_capital, at_least, at_most, told) refl

      -- On a valid input, and an answer that is no text or can be hashed and decoded, a cycle makes a report
      -- whose candidates are all acceptable for the references that it lists: nothing live, no code written
      -- without review, and nothing that breaks the charter. It has at most as many candidates as asked for,
      -- one at least when it is accepted, and repeats no reason. The texts of the candidates that are looked
      -- at name only amounts that are finite and at least zero.
      pub build_iteration_cycle_report-IsSafeReport :
          (response : Response)
          → IsReadable response
          → (r : IterationCycleReport F) × (build_iteration_cycle_report input figures parse_amount
                matches capital_phrases digest decode response
              ≡ ok r)
            × IsSafeReport parse_amount matches capital_phrases input r
      unfolding raw_response_metadata
      build_iteration_cycle_report-IsSafeReport (answered_otherwise name) h =
          let metadata : ResponseMetadata = record {
            status = "rejected";
            raw_response_type = name;
            raw_response_length = none;
            raw_response_sha256 = none;
          } in
          (
            report input figures metadata false [] ("invalid_llm_response_type" ∷ []),
            build_iteration_cycle_report-valid (answered_otherwise name) metadata refl,
            no_candidates metadata "invalid_llm_response_type",
          )
      build_iteration_cycle_report-IsSafeReport (answered s) (sha, o, hashed, decoded, phrases) =
          let metadata : ResponseMetadata = record {
            status = "rejected";
            raw_response_type = "str";
            raw_response_length = some (text_length s);
            raw_response_sha256 = some sha;
          } in
          let (r, made, safe) =
            report_of_payload-IsSafeReport digest valid_capital decode metadata s sha o hashed
              phrases in
          (
            r,
            build_iteration_cycle_report-valid (answered s) metadata (rw hashed refl)
                ∙ rw decoded made,
            safe,
          )

      -- On a valid input and a valid batch the reported candidates are exactly the acceptable ones among the
      -- first ones that were asked for, in their order, and the report is accepted exactly when there is one
      -- and the batch asks for nothing live. The answer can be hashed, and the texts of the candidates that
      -- are looked at name only amounts that are finite and at least zero.
      pub build_iteration_cycle_report-keeps :
          (s sha : String) (b : IterationCandidateBatch)
          → digest s ≡ ok sha
          → decode s ≡ ok (some b)
          → is_valid_batch b ≡ true
          → All (λ c. HasAmounts capital_phrases (dump c)) (take input.max_candidates b.candidates)
          → (r : IterationCycleReport F) × (build_iteration_cycle_report input figures parse_amount
                matches capital_phrases digest decode
                (answered s)
              ≡ ok r)
            × (r.candidates
                ≡ keep
                    (is_acceptable parse_amount matches capital_phrases input.current_capital_usd
                      (allowed_evidence_refs figures.research_evidence_refs))
                    (take input.max_candidates b.candidates))
            × (r.accepted ≡ (
                not (is_empty r.candidates) && not b.uses_real_capital && not b.live_order_routing))
      unfolding report_of_found raw_response_metadata
      build_iteration_cycle_report-keeps s sha b hashed decoded valid phrases =
          let metadata : ResponseMetadata = record {
            status = "rejected";
            raw_response_type = "str";
            raw_response_length = some (text_length s);
            raw_response_sha256 = some sha;
          } in
          let (told, found, made, kept) =
            report_of_batch-ok digest valid_capital s sha b hashed phrases in
          (
            report_of_found input figures told b found,
            build_iteration_cycle_report-valid (answered s) metadata (rw hashed refl)
                ∙ rw (decoded, valid) made,
            kept,
            refl,
          )
