-- ===== src/Risk/Charter.antt =====
-- src/crypto_alpha_agent/risk/charter_guard.py: whether an idea that a model generated keeps to the
-- charter. Its regular expressions are parameters: `matches` tells whether the pattern of a term occurs
-- in a text, `capital_phrases` gives the phrases that name a capital, with the amount of each, and
-- `parse_amount` the first amount in a text.
pub mod Records
pub mod Texts
pub mod Collected
pub mod Amounts
pub mod Safety
use crypto_research_agent.Common.{
  Outcome, ok, err, validation_error, append_unique, ℕ, String, append_text, Bool, true, false, not,
  ◌&&◌, ◌||◌, Option, none, some, List, [], ◌∷◌, ◌++◌, if◌then◌else◌, is_empty, any, contains,
  strip, lower, occurs_in, join_with, ◌=?◌, Eq, eq_of_discrete, string_eq,
}
use crypto_research_agent.Common.Dict.{Dict, lookup}
use crypto_research_agent.Common.Float.{Float, larger, is_nonneg}
use Prim.Native.Char.{Char, code}
use crypto_research_agent.Common.{◌==◌}
use crypto_research_agent.Risk.Charter.Records.{
  CharterRejectReason, sub_second_arbitrage, premium_rpc_required, live_trading_required,
  capital_above_budget, Idea, text, flag, number, mapping, items, nothing, Ideas, nil, cons, Fields,
  end, field, Collection, Rule, Scan, CharterGuardDecision, text_rules, capital_metadata_keys,
  unsafe_metadata_keys, affirmative_texts, charter_reason_eq,
}

-- `text.replace("-", "_")`
unfoldable pub underscored : String → String
underscored String.[] = String.[]
underscored (String.◌∷◌ c s) =
    let rest = underscored s in if code c == 45 then append_text "_" rest else String.◌∷◌ c rest

-- `_normalize_key`
unfoldable pub normalize_key : String → String
normalize_key key = underscored (lower (strip key))

abbrev pub is_capital_key : Option String → Bool
is_capital_key none = false
is_capital_key (some key) = contains (normalize_key key) capital_metadata_keys

abbrev pub append_some :
    List CharterRejectReason → Option CharterRejectReason → List CharterRejectReason
append_some reasons none = reasons
append_some reasons (some reason) = append_unique reasons reason

abbrev pub append_when :
    List CharterRejectReason → Bool → CharterRejectReason → List CharterRejectReason
append_when reasons condition reason = if condition then append_unique reasons reason else reasons

abbrev pub append_all_unique :
    List CharterRejectReason → List CharterRejectReason → List CharterRejectReason
append_all_unique reasons [] = reasons
append_all_unique reasons (r ∷ rs) = append_all_unique (append_unique reasons r) rs

-- `_allowed_family`
unfoldable pub allowed_family : List String → Option String
allowed_family strings =
    let all = lower (join_with " " strings) in
    if any (λ term. occurs_in term all) ("funding" ∷ "basis" ∷ "open interest" ∷ "historical" ∷ [])
    then some "funding_basis_public_data"
    else none

module _ {F : Type 0} ⦃f : Float F⦄ where
  open f use {nought, lt}

  -- `_metadata_value_implies_required`
  unfoldable pub implies_required : Idea F → Bool
  implies_required (flag b) = b
  implies_required (number x) = lt nought x
  implies_required (text s) = contains (lower (strip s)) affirmative_texts
  implies_required _ = false

  -- `str(item).strip().lower() in values`, where only a text can be one of the values
  abbrev pub reads_as : List String → Idea F → Bool
  reads_as values (text s) = contains (lower (strip s)) values
  reads_as values _ = false

  abbrev pub unsafe_key_reason : String → Idea F → Option CharterRejectReason
  unsafe_key_reason key item =
      if implies_required item then lookup key unsafe_metadata_keys else none

  -- what a field adds to the reasons before its value is looked into
  unfoldable pub field_reasons :
      List CharterRejectReason → String → Idea F → List CharterRejectReason
  field_reasons reasons key item =
      let name = normalize_key key in
      let one = append_some reasons (unsafe_key_reason name item) in
      let two =
        append_when one ((name =? "speed_dependency") && reads_as ("high" ∷ []) item)
          sub_second_arbitrage in
      let three =
        append_when two ((name =? "rpc_dependency") && reads_as ("high" ∷ []) item)
          premium_rpc_required in
      append_when three ((name =? "action_mode") && reads_as ("live" ∷ "gated_live" ∷ []) item)
        live_trading_required

  abbrev pub if_nonneg : Option F → Option F
  if_nonneg none = none
  if_nonneg (some x) = if is_nonneg x then some x else none

  abbrev pub append_capital : List F → Option F → List F
  append_capital values none = values
  append_capital values (some x) = values ++ x ∷ []

  module _ (parse_amount : String → Option F) where
    -- `_coerce_capital` of a number and of a text
    abbrev pub capital_of_text : Option String → String → Option F
    capital_of_text key s = if is_capital_key key then if_nonneg (parse_amount s) else none

    -- A whole number counts as the float that it converts to; one beyond the range of floats, for which
    -- the conversion raises, is left out.
    abbrev pub capital_of_number : Option String → F → Option F
    capital_of_number key x = if is_capital_key key then if_nonneg (some x) else none

    -- `_collect_idea_fields`
    unfoldable mutual
      pub collect : Option String → Idea F → Collection F → Collection F
      collect key (text s) c = record c {
        strings = c.strings ++ s ∷ [];
        capital_values = append_capital c.capital_values (capital_of_text key s);
      }
      collect key (flag b) c = c
      collect key (number x) c = record c {
        capital_values = append_capital c.capital_values (capital_of_number key x);
      }
      collect key (mapping fields) c = collect_fields fields c
      collect key (items ideas) c = collect_items key ideas c
      collect key nothing c = c

      pub collect_items : Option String → Ideas F → Collection F → Collection F
      collect_items key nil c = c
      collect_items key (cons idea ideas) c = collect_items key ideas (collect key idea c)

      pub collect_fields : Fields F → Collection F → Collection F
      collect_fields end c = c
      collect_fields (field key item fields) c = collect_fields fields (
          collect (some key) item
            (record c { metadata_reasons = field_reasons c.metadata_reasons key item }))

  module _ (matches : Rule → String → Bool) (capital_phrases : String → List (String × F))
      (max_capital : F) where
    unfoldable pub scan_rules : List Rule → String → Scan F → Scan F
    scan_rules [] s scan = scan
    scan_rules (r ∷ rules) s scan = scan_rules rules s (
        if matches r s
        then record scan {
          reason_codes = append_unique scan.reason_codes r.reason;
          matched_terms = append_unique scan.matched_terms r.term;
        }
        else scan)

    unfoldable pub scan_phrases : List (String × F) → Scan F → Scan F
    scan_phrases [] scan = scan
    scan_phrases ((phrase, amount) ∷ phrases) scan =
        let added = record scan { amounts = scan.amounts ++ amount ∷ [] } in
        scan_phrases phrases (
          if lt max_capital amount
          then record added {
            reason_codes = append_unique added.reason_codes capital_above_budget;
            matched_terms = append_unique added.matched_terms (strip phrase);
          }
          else added)

    -- `_scan_text`, of all the texts in turn
    unfoldable pub scan_texts : List String → Scan F → Scan F
    scan_texts [] scan = scan
    scan_texts (s ∷ strings) scan =
        scan_texts strings (scan_phrases (capital_phrases s) (scan_rules text_rules s scan))

  -- `max(values)`
  abbrev pub largest_from : F → List F → F
  largest_from x [] = x
  largest_from x (y ∷ ys) = largest_from (larger x y) ys

  abbrev pub largest_of : List F → Option F
  largest_of [] = none
  largest_of (x ∷ xs) = some (largest_from x xs)

  abbrev pub accepts_capital : Option F → Bool
  accepts_capital none = true
  accepts_capital (some x) = is_nonneg x

  abbrev pub is_above : Option F → F → Bool
  is_above none limit = false
  is_above (some x) limit = lt limit x

  module _ (parse_amount : String → Option F) (matches : Rule → String → Bool)
      (capital_phrases : String → List (String × F)) where
    -- the decision, before its record checks it
    unfoldable pub charter_decision : Idea F → F → CharterGuardDecision F
    charter_decision idea max_capital =
        let c =
          collect parse_amount none idea
            (record { strings = []; capital_values = []; metadata_reasons = [] }) in
        let scan =
          scan_texts matches capital_phrases max_capital c.strings
            (record { reason_codes = []; matched_terms = []; amounts = c.capital_values }) in
        let capital = largest_of scan.amounts in
        let reasons =
          append_when (append_all_unique scan.reason_codes c.metadata_reasons)
            (is_above capital max_capital) capital_above_budget in
        record {
          approved = is_empty reasons;
          reason_codes = reasons;
          matched_terms = scan.matched_terms;
          capital_required_usd = capital;
          max_capital_usd = max_capital;
          allowed_family = if is_empty reasons then allowed_family c.strings else none;
        }

    -- An amount that overflowed to infinity is refused with an exception.
    unfoldable pub guard_generated_idea : Idea F → F → Outcome (CharterGuardDecision F)
    guard_generated_idea idea max_capital =
        let d = charter_decision idea max_capital in
        if accepts_capital d.capital_required_usd && is_nonneg d.max_capital_usd
        then ok d
        else err (validation_error "CharterGuardDecision")
