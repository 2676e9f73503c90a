-- ===== src/Risk/Charter/Safety.antt =====
-- The charter guard approves the ideas that keep to the charter at every depth, and no others.
use crypto_research_agent.Common.{
  true, ok, All-imply, append_unique, ◌≡◌, refl, sym, subst, strip, String, Bool, not, ◌&&◌, ◌||◌,
  Option, none, List, [], ◌∷◌, ◌++◌, arith, inl, inr, is_empty, any, string_eq, All, All-append,
  Bool-cases,
}
use crypto_research_agent.Common.Float.{is_nonneg, Float, IsOrdered}
use crypto_research_agent.Risk.Charter.Records.{
  CharterGuardDecision, CharterRejectReason, charter_reason_eq, capital_above_budget, Idea, Rule,
  text_rules, Scan,
}
use crypto_research_agent.Risk.Charter.{
  charter_decision, append_all_unique, collect, scan_rules, scan_phrases, scan_texts, largest_of,
  is_above, guard_generated_idea,
}
use crypto_research_agent.Risk.Charter.Collected.{
  any-append, is_empty-append_unique, is_empty-append_when, is_unsafe_text, is_unsafe, shows_unsafe,
  shows_unsafe-collect,
}
use crypto_research_agent.Risk.Charter.Texts.{HasAmounts, strings-collect}
use crypto_research_agent.Risk.Charter.Amounts.{
  IsNumber, IsAmount, IsNumber-IsAmount, accepts_capital-largest_of, is_above-largest_of,
  All-collect,
}

is_empty-append_all_unique :
    (reasons added : List CharterRejectReason)
    → is_empty (append_all_unique reasons added) ≡ (is_empty reasons && is_empty added)
is_empty-append_all_unique reasons [] = ground arith
is_empty-append_all_unique reasons (r ∷ added) = ground (
  arith,
  is_empty-append_all_unique (append_unique reasons r) added,
  is_empty-append_unique reasons r,
)

module _ {F : Type 0} ⦃f : Float F⦄ where
  open f use {lt}

  module _ (matches : Rule → String → Bool) (capital_phrases : String → List (String × F))
      (max_capital : F) where
    abbrev has_reason : Scan F → Bool
    has_reason scan = not (is_empty scan.reason_codes) || any (lt max_capital) scan.amounts

    has_reason-scan_rules :
        (rules : List Rule) (s : String) (scan : Scan F)
        → has_reason (scan_rules matches capital_phrases max_capital rules s scan)
          ≡ (has_reason scan || any (λ r. matches r s) rules)
    unfolding scan_rules
    has_reason-scan_rules [] s scan = ground arith
    has_reason-scan_rules (r ∷ rules) s scan = elim (Bool-cases (matches r s)) [
      | inl e ↦ rw e (
          let hit = record scan {
            reason_codes = append_unique scan.reason_codes r.reason;
            matched_terms = append_unique scan.matched_terms r.term;
          } in
          ground (
            arith,
            has_reason-scan_rules rules s hit,
            is_empty-append_unique scan.reason_codes r.reason,
          ))
      | inr e ↦ rw e (ground (arith, has_reason-scan_rules rules s scan))
    ]

    has_reason-scan_phrases :
        (phrases : List (String × F)) (scan : Scan F)
        → has_reason (scan_phrases matches capital_phrases max_capital phrases scan)
          ≡ (has_reason scan || any (λ p. lt max_capital p.1) phrases)
    unfolding scan_phrases
    has_reason-scan_phrases [] scan = ground arith
    has_reason-scan_phrases ((phrase, amount) ∷ phrases) scan =
        let added = record scan { amounts = scan.amounts ++ amount ∷ [] } in
        let more = any-append (lt max_capital) scan.amounts (amount ∷ []) in
        elim (Bool-cases (lt max_capital amount)) [
          | inl e ↦ rw e (
              let over = record added {
                reason_codes = append_unique added.reason_codes capital_above_budget;
                matched_terms = append_unique added.matched_terms (strip phrase);
              } in
              ground (
                arith,
                has_reason-scan_phrases phrases over,
                is_empty-append_unique scan.reason_codes capital_above_budget,
              ))
          | inr e ↦ rw e (ground (arith, has_reason-scan_phrases phrases added, more, e))
        ]

    has_reason-scan_texts :
        (parse_amount : String → Option F) (strings : List String) (scan : Scan F)
        → has_reason (scan_texts matches capital_phrases max_capital strings scan) ≡ (
            has_reason scan
            || any (is_unsafe_text parse_amount matches capital_phrases max_capital) strings)
    unfolding scan_texts is_unsafe_text
    has_reason-scan_texts parse_amount [] scan = ground arith
    has_reason-scan_texts parse_amount (s ∷ strings) scan =
        let ruled = scan_rules matches capital_phrases max_capital text_rules s scan in
        ground (
          arith,
          has_reason-scan_texts parse_amount strings
              (scan_phrases matches capital_phrases max_capital (capital_phrases s) ruled),
          has_reason-scan_phrases (capital_phrases s) ruled,
          has_reason-scan_rules text_rules s scan,
        )

    amounts-scan_rules :
        (rules : List Rule) (s : String) (scan : Scan F)
        → (scan_rules matches capital_phrases max_capital rules s scan).amounts ≡ scan.amounts
    unfolding scan_rules
    amounts-scan_rules [] s scan = refl
    amounts-scan_rules (r ∷ rules) s scan = elim (Bool-cases (matches r s)) [
      | inl e ↦ rw (e, scan_rules) (amounts-scan_rules rules s _)
      | inr e ↦ rw (e, scan_rules) (amounts-scan_rules rules s scan)
    ]

    All-scan_phrases :
        (phrases : List (String × F)) (scan : Scan F)
        → All (λ p. IsAmount p.1) phrases
        → All IsAmount scan.amounts
        → All IsAmount (scan_phrases matches capital_phrases max_capital phrases scan).amounts
    unfolding scan_phrases
    All-scan_phrases [] scan p h = h
    All-scan_phrases ((phrase, amount) ∷ phrases) scan (q, p) h =
        let more = All-append IsAmount scan.amounts (amount ∷ []) h (q, tt) in
        elim (Bool-cases (lt max_capital amount)) [
          | inl e ↦ rw (e, scan_phrases, All) (All-scan_phrases phrases _ p more)
          | inr e ↦ rw (e, scan_phrases, All) (All-scan_phrases phrases _ p more)
        ]

    All-scan_texts :
        (strings : List String) (scan : Scan F)
        → All (λ s. All (λ p. IsAmount p.1) (capital_phrases s)) strings
        → All IsAmount scan.amounts
        → All IsAmount (scan_texts matches capital_phrases max_capital strings scan).amounts
    unfolding scan_texts
    All-scan_texts [] scan p h = h
    All-scan_texts (s ∷ strings) scan (q, p) h =
        let ruled = scan_rules matches capital_phrases max_capital text_rules s scan in
        All-scan_texts strings _ p (
          All-scan_phrases (capital_phrases s) ruled q
            (subst (All IsAmount) (sym (amounts-scan_rules text_rules s scan)) h))

module _ {F : Type 0} ⦃f : Float F⦄ (laws : IsOrdered F) (parse_amount : String → Option F)
    (matches : Rule → String → Bool) (capital_phrases : String → List (String × F)) where
  pub guard_generated_idea-approves :
      (idea : Idea F) (max_capital : F)
      → HasAmounts capital_phrases idea
      → is_nonneg max_capital ≡ true
      → (d : CharterGuardDecision F) × (guard_generated_idea parse_amount matches capital_phrases
            idea max_capital
          ≡ ok d)
        × (d.approved ≡ not (is_unsafe parse_amount matches capital_phrases max_capital none idea))
  unfolding guard_generated_idea charter_decision shows_unsafe
  guard_generated_idea-approves idea max_capital phrases budget =
      let c =
        collect parse_amount none idea
          (record { strings = []; capital_values = []; metadata_reasons = [] }) in
      let empty : Scan F = record {
        reason_codes = [];
        matched_terms = [];
        amounts = c.capital_values;
      } in
      let scan = scan_texts matches capital_phrases max_capital c.strings empty in
      let amounts =
        All-scan_texts matches capital_phrases max_capital c.strings empty
          (subst (All (λ s. All (λ p. IsAmount p.1) (capital_phrases s)))
            (sym (strings-collect parse_amount none idea _)) phrases)
          (All-collect laws parse_amount none idea _ tt) in
      let numbers = All-imply IsAmount IsNumber scan.amounts (IsNumber-IsAmount laws) amounts in
      let reasons = append_all_unique scan.reason_codes c.metadata_reasons in
      (
        charter_decision parse_amount matches capital_phrases idea max_capital,
        rw (accepts_capital-largest_of laws scan.amounts amounts, budget) refl,
        ground (
          arith,
          is_empty-append_when reasons (is_above (largest_of scan.amounts) max_capital)
              capital_above_budget,
          is_empty-append_all_unique scan.reason_codes c.metadata_reasons,
          is_above-largest_of laws max_capital scan.amounts
              (IsNumber-IsAmount laws max_capital budget) numbers,
          has_reason-scan_texts matches capital_phrases max_capital parse_amount c.strings empty,
          shows_unsafe-collect parse_amount matches capital_phrases max_capital none idea
              (record { strings = []; capital_values = []; metadata_reasons = [] }),
        ),
      )
