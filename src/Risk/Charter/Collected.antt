-- ===== src/Risk/Charter/Collected.antt =====
-- An independent reading of the charter, by recursion on an idea instead of on lists that grow, and
-- what the lists of `_collect_idea_fields` hold of it.
use crypto_research_agent.Common.{
  append_unique, ◌≡◌, refl, String, Bool, true, false, not, ◌&&◌, ◌||◌, Option, none, some, List,
  [], ◌∷◌, ◌++◌, arith, inl, inr, ◌=?◌, is_empty, any, contains, Eq, string_eq, All, All-append,
  Bool-cases,
}
use crypto_research_agent.Common.Float.{Float}
use crypto_research_agent.Risk.Charter.Records.{
  CharterRejectReason, charter_reason_eq, sub_second_arbitrage, premium_rpc_required,
  live_trading_required, Idea, text, flag, number, mapping, items, nothing, Ideas, nil, cons,
  Fields, end, field, Collection, Rule, text_rules,
}
use crypto_research_agent.Risk.Charter.{
  append_some, append_when, normalize_key, reads_as, unsafe_key_reason, field_reasons,
  append_capital, capital_of_text, capital_of_number, collect, collect_items, collect_fields,
  is_above,
}

pub any-append {ℓ} :
    {A : Type ℓ} (p : A → Bool) (xs ys : List A) → any p (xs ++ ys) ≡ (any p xs || any p ys)
any-append p [] ys = refl
any-append p (x ∷ xs) ys = ground (arith, any-append p xs ys)

abbrev pub is_some : {A : Type 0} → Option A → Bool
is_some none = false
is_some (some a) = true

pub is_empty-append_unique {ℓ} :
    {A : Type ℓ} ⦃e : Eq A⦄ (xs : List A) (a : A) → is_empty (append_unique xs a) ≡ false
unfolding contains
is_empty-append_unique [] a = refl
is_empty-append_unique (x ∷ xs) a = elim (Bool-cases (contains a (x ∷ xs))) [
  | inl e ↦ rw e refl
  | inr e ↦ rw e refl
]

pub is_empty-append_when :
    (reasons : List CharterRejectReason) (c : Bool) (r : CharterRejectReason)
    → is_empty (append_when reasons c r) ≡ (is_empty reasons && not c)
is_empty-append_when reasons true r = ground (arith, is_empty-append_unique reasons r)
is_empty-append_when reasons false r = ground arith

is_empty-append_some :
    (reasons : List CharterRejectReason) (o : Option CharterRejectReason)
    → is_empty (append_some reasons o) ≡ (is_empty reasons && not (is_some o))
is_empty-append_some reasons none = ground arith
is_empty-append_some reasons (some r) = ground (arith, is_empty-append_unique reasons r)

module _ {F : Type 0} ⦃f : Float F⦄ where
  open f use {lt}

  -- The key and the value of a field break the charter by themselves.
  unfoldable pub is_unsafe_field : String → Idea F → Bool
  is_unsafe_field key item =
      let name = normalize_key key in
      is_some (unsafe_key_reason name item)
      || ((name =? "speed_dependency") && reads_as ("high" ∷ []) item)
      || ((name =? "rpc_dependency") && reads_as ("high" ∷ []) item)
      || ((name =? "action_mode") && reads_as ("live" ∷ "gated_live" ∷ []) item)

  pub is_empty-field_reasons :
      (reasons : List CharterRejectReason) (key : String) (item : Idea F)
      → is_empty (field_reasons reasons key item)
        ≡ (is_empty reasons && not (is_unsafe_field key item))
  unfolding field_reasons is_unsafe_field
  is_empty-field_reasons reasons key item =
      let name = normalize_key key in
      let one = append_some reasons (unsafe_key_reason name item) in
      let speed = (name =? "speed_dependency") && reads_as ("high" ∷ []) item in
      let rpc = (name =? "rpc_dependency") && reads_as ("high" ∷ []) item in
      let two = append_when one speed sub_second_arbitrage in
      let three = append_when two rpc premium_rpc_required in
      ground (
        arith,
        is_empty-append_some reasons (unsafe_key_reason name item),
        is_empty-append_when one speed sub_second_arbitrage,
        is_empty-append_when two rpc premium_rpc_required,
        is_empty-append_when three
            ((name =? "action_mode") && reads_as ("live" ∷ "gated_live" ∷ []) item)
            live_trading_required,
      )

  pub any-append_capital :
      (p : F → Bool) (values : List F) (o : Option F)
      → any p (append_capital values o) ≡ (any p values || any p (append_capital [] o))
  any-append_capital p values none = ground arith
  any-append_capital p values (some x) = any-append p values (x ∷ [])

  pub All-append_capital :
      (P : F → Type 0) (values : List F) (o : Option F)
      → All P values
      → All P (append_capital [] o)
      → All P (append_capital values o)
  All-append_capital P values none h g = h
  All-append_capital P values (some x) h g = All-append P values (x ∷ []) h g

  module _ (parse_amount : String → Option F) (matches : Rule → String → Bool)
      (capital_phrases : String → List (String × F)) (max_capital : F) where
    -- A term of the charter stands in the text, or the text names a capital above the budget.
    unfoldable pub is_unsafe_text : String → Bool
    is_unsafe_text s =
        any (λ r. matches r s) text_rules || any (λ p. lt max_capital p.1) (capital_phrases s)

    -- Somewhere inside the value the charter is broken.
    unfoldable mutual
      pub is_unsafe : Option String → Idea F → Bool
      is_unsafe key (text s) =
          is_unsafe_text s || is_above (capital_of_text parse_amount key s) max_capital
      is_unsafe key (flag b) = false
      is_unsafe key (number x) = is_above (capital_of_number parse_amount key x) max_capital
      is_unsafe key (mapping fields) = has_unsafe_field fields
      is_unsafe key (items ideas) = has_unsafe_item key ideas
      is_unsafe key nothing = false

      pub has_unsafe_item : Option String → Ideas F → Bool
      has_unsafe_item key nil = false
      has_unsafe_item key (cons idea ideas) = is_unsafe key idea || has_unsafe_item key ideas

      pub has_unsafe_field : Fields F → Bool
      has_unsafe_field end = false
      has_unsafe_field (field key item fields) =
          is_unsafe_field key item || is_unsafe (some key) item || has_unsafe_field fields

    unfoldable pub shows_unsafe : Collection F → Bool
    shows_unsafe c =
        any is_unsafe_text c.strings
        || any (lt max_capital) c.capital_values
        || not (is_empty c.metadata_reasons)

    any-lt-option :
        (o : Option F) → any (lt max_capital) (append_capital [] o) ≡ is_above o max_capital
    any-lt-option none = refl
    any-lt-option (some x) = ground arith

    -- Collecting a value adds to the lists exactly what breaks the charter inside it.
    mutual
      unfolding shows_unsafe collect is_unsafe collect_items has_unsafe_item collect_fields
          has_unsafe_field

      pub shows_unsafe-collect :
          (key : Option String) (v : Idea F) (c : Collection F)
          → shows_unsafe (collect parse_amount key v c) ≡ (shows_unsafe c || is_unsafe key v)
      shows_unsafe-collect key (text s) c = ground (
        arith,
        any-append is_unsafe_text c.strings (s ∷ []),
        any-append_capital (lt max_capital) c.capital_values (capital_of_text parse_amount key s),
        any-lt-option (capital_of_text parse_amount key s),
      )
      shows_unsafe-collect key (flag b) c = ground arith
      shows_unsafe-collect key (number x) c = ground (
        arith,
        any-append_capital (lt max_capital) c.capital_values (capital_of_number parse_amount key x),
        any-lt-option (capital_of_number parse_amount key x),
      )
      shows_unsafe-collect key (mapping fields) c = shows_unsafe-collect_fields fields c
      shows_unsafe-collect key (items ideas) c = shows_unsafe-collect_items key ideas c
      shows_unsafe-collect key nothing c = ground arith

      shows_unsafe-collect_items :
          (key : Option String) (ideas : Ideas F) (c : Collection F)
          → shows_unsafe (collect_items parse_amount key ideas c)
            ≡ (shows_unsafe c || has_unsafe_item key ideas)
      shows_unsafe-collect_items key nil c = ground arith
      shows_unsafe-collect_items key (cons idea ideas) c = ground (
        arith,
        shows_unsafe-collect_items key ideas (collect parse_amount key idea c),
        shows_unsafe-collect key idea c,
      )

      shows_unsafe-collect_fields :
          (fields : Fields F) (c : Collection F)
          → shows_unsafe (collect_fields parse_amount fields c)
            ≡ (shows_unsafe c || has_unsafe_field fields)
      shows_unsafe-collect_fields end c = ground arith
      shows_unsafe-collect_fields (field key item fields) c =
          let told = record c { metadata_reasons = field_reasons c.metadata_reasons key item } in
          ground (
            arith,
            shows_unsafe-collect_fields fields (collect parse_amount (some key) item told),
            shows_unsafe-collect (some key) item told,
            is_empty-field_reasons c.metadata_reasons key item,
          )
