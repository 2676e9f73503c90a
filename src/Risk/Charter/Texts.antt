-- ===== src/Risk/Charter/Texts.antt =====
-- The texts of an idea, and that `_collect_idea_fields` gathers just these.
use mathlib.Core.List.{append-nil, append_assoc}
use crypto_research_agent.Common.{
  ◌≡◌, refl, sym, ap, ◌∙◌, String, true, Option, some, List, [], ◌∷◌, ◌++◌, All,
}
use crypto_research_agent.Common.Float.{Float, is_nonneg}
use crypto_research_agent.Risk.Charter.Records.{
  Idea, text, flag, number, mapping, items, nothing, Ideas, nil, cons, Fields, end, field,
  Collection,
}
use crypto_research_agent.Risk.Charter.{field_reasons, collect, collect_items, collect_fields}

unfoldable mutual
  -- the texts that stand inside an idea, from the left
  pub texts_of : {F : Type 0} → Idea F → List String
  texts_of (text s) = s ∷ []
  texts_of (flag b) = []
  texts_of (number x) = []
  texts_of (mapping fields) = texts_of_fields fields
  texts_of (items ideas) = texts_of_items ideas
  texts_of nothing = []

  pub texts_of_items : {F : Type 0} → Ideas F → List String
  texts_of_items nil = []
  texts_of_items (cons idea ideas) = texts_of idea ++ texts_of_items ideas

  pub texts_of_fields : {F : Type 0} → Fields F → List String
  texts_of_fields end = []
  texts_of_fields (field key item fields) = texts_of item ++ texts_of_fields fields

module _ {F : Type 0} ⦃f : Float F⦄ where
  -- The amounts that the phrases of the idea's own texts name are finite and at least zero.
  abbrev pub HasAmounts : (String → List (String × F)) → Idea F → Type 0
  HasAmounts capital_phrases idea =
      All (λ s. All (λ p. is_nonneg p.1 ≡ true) (capital_phrases s)) (texts_of idea)

  module _ (parse_amount : String → Option F) where
    mutual
      unfolding collect collect_items collect_fields texts_of texts_of_items texts_of_fields

      pub strings-collect :
          (key : Option String) (v : Idea F) (c : Collection F)
          → (collect parse_amount key v c).strings ≡ c.strings ++ texts_of v
      strings-collect key (text s) c = refl
      strings-collect key (flag b) c = sym (append-nil c.strings)
      strings-collect key (number x) c = sym (append-nil c.strings)
      strings-collect key (mapping fields) c = strings-collect_fields fields c
      strings-collect key (items ideas) c = strings-collect_items key ideas c
      strings-collect key nothing c = sym (append-nil c.strings)

      strings-collect_items :
          (key : Option String) (ideas : Ideas F) (c : Collection F)
          → (collect_items parse_amount key ideas c).strings ≡ c.strings ++ texts_of_items ideas
      strings-collect_items key nil c = sym (append-nil c.strings)
      strings-collect_items key (cons idea ideas) c =
          strings-collect_items key ideas (collect parse_amount key idea c)
          ∙ ap (λ l. l ++ texts_of_items ideas) (strings-collect key idea c)
          ∙ append_assoc c.strings (texts_of idea) (texts_of_items ideas)

      strings-collect_fields :
          (fields : Fields F) (c : Collection F)
          → (collect_fields parse_amount fields c).strings ≡ c.strings ++ texts_of_fields fields
      strings-collect_fields end c = sym (append-nil c.strings)
      strings-collect_fields (field key item fields) c =
          let told = record c { metadata_reasons = field_reasons c.metadata_reasons key item } in
          strings-collect_fields fields (collect parse_amount (some key) item told)
          ∙ ap (λ l. l ++ texts_of_fields fields) (strings-collect (some key) item told)
          ∙ append_assoc c.strings (texts_of item) (texts_of_fields fields)
