-- ===== src/Risk/Charter/Amounts.antt =====
-- The capital figures of an idea are numbers, and the budget is compared with the largest of them.
use crypto_research_agent.Common.{
  true, ◌≡◌, refl, String, ◌||◌, Option, none, some, List, [], ◌∷◌, arith, inl, inr, any, string_eq,
  All, Bool-cases,
}
use crypto_research_agent.Common.Float.{Float, IsOrdered, ◌≼◌, larger, is_nonneg}
use crypto_research_agent.Risk.Charter.Records.{
  charter_reason_eq, Idea, text, flag, number, mapping, items, nothing, Ideas, nil, cons, Fields,
  end, field, Collection,
}
use crypto_research_agent.Risk.Charter.{
  field_reasons, if_nonneg, is_capital_key, append_capital, capital_of_text, capital_of_number,
  collect, collect_items, collect_fields, largest_from, largest_of, is_above, accepts_capital,
}
use crypto_research_agent.Risk.Charter.Collected.{All-append_capital}

module _ {F : Type 0} ⦃f : Float F⦄ where
  open f use {lt, le}

  -- not NaN
  abbrev pub IsNumber : F → Type 0
  IsNumber x = x ≼ x

  -- finite and at least zero
  abbrev pub IsAmount : F → Type 0
  IsAmount x = is_nonneg x ≡ true

  module _ (laws : IsOrdered F) where
    pub IsNumber-IsAmount : (x : F) → IsAmount x → IsNumber x
    IsNumber-IsAmount x p = laws.le_of_finite x (ground arith)

    All-if_nonneg : (o : Option F) → All IsAmount (append_capital [] (if_nonneg o))
    All-if_nonneg none = tt
    All-if_nonneg (some x) = elim (Bool-cases (is_nonneg x)) [
      | inl e ↦ rw e (e, tt)
      | inr e ↦ rw e tt
    ]

    accepts-largest_from :
        (x : F) (ys : List F) → IsAmount x → All IsAmount ys → IsAmount (largest_from x ys)
    unfolding larger
    accepts-largest_from x [] p q = p
    accepts-largest_from x (y ∷ ys) p (r, q) =
        accepts-largest_from (larger x y) ys
          (elim (Bool-cases (f.lt x y)) [ inl e ↦ rw e r | inr e ↦ rw e p ]) q

    pub accepts_capital-largest_of :
        (xs : List F) → All IsAmount xs → accepts_capital (largest_of xs) ≡ true
    accepts_capital-largest_of [] p = refl
    accepts_capital-largest_of (x ∷ xs) (q, p) = accepts-largest_from x xs q p

    lt-larger :
        (limit x y : F)
        → IsNumber limit
        → IsNumber x
        → IsNumber y
        → lt limit (larger x y) ≡ (lt limit x || lt limit y)
    unfolding larger
    lt-larger limit x y p q r = ground (
      arith,
      laws.lt_number limit x p q,
      laws.lt_number limit y p r,
      laws.lt_number x y q r,
      laws.le_trans y x limit,
      laws.le_trans x y limit,
      laws.le_total_number x y q r,
    )

    IsNumber-larger : (x y : F) → IsNumber x → IsNumber y → IsNumber (larger x y)
    unfolding larger
    IsNumber-larger x y p q = ground arith

    is_above-largest_from :
        (limit x : F) (ys : List F)
        → IsNumber limit
        → IsNumber x
        → All IsNumber ys
        → lt limit (largest_from x ys) ≡ (lt limit x || any (lt limit) ys)
    is_above-largest_from limit x [] p q r = ground arith
    is_above-largest_from limit x (y ∷ ys) p q (s, r) = ground (
      arith,
      is_above-largest_from limit (larger x y) ys p (IsNumber-larger x y q s) r,
      lt-larger limit x y p q s,
    )

    pub is_above-largest_of :
        (limit : F) (xs : List F)
        → IsNumber limit
        → All IsNumber xs
        → is_above (largest_of xs) limit ≡ any (lt limit) xs
    is_above-largest_of limit [] p q = refl
    is_above-largest_of limit (x ∷ xs) p (q, r) =
        ground (arith, is_above-largest_from limit x xs p q r)

    module _ (parse_amount : String → Option F) where
      All-capital_of_text :
          (key : Option String) (s : String)
          → All IsAmount (append_capital [] (capital_of_text parse_amount key s))
      All-capital_of_text key s = elim (Bool-cases (is_capital_key key)) [
        | inl e ↦ rw e (All-if_nonneg (parse_amount s))
        | inr e ↦ rw e tt
      ]

      All-capital_of_number :
          (key : Option String) (x : F)
          → All IsAmount (append_capital [] (capital_of_number parse_amount key x))
      All-capital_of_number key x = elim (Bool-cases (is_capital_key key)) [
        | inl e ↦ rw e (All-if_nonneg (some x))
        | inr e ↦ rw e tt
      ]

      -- Every capital that is collected is a number.
      mutual
        unfolding collect collect_items collect_fields

        pub All-collect :
            (key : Option String) (v : Idea F) (c : Collection F)
            → All IsAmount c.capital_values
            → All IsAmount (collect parse_amount key v c).capital_values
        All-collect key (text s) c h =
            All-append_capital IsAmount c.capital_values (capital_of_text parse_amount key s) h
              (All-capital_of_text key s)
        All-collect key (flag b) c h = h
        All-collect key (number x) c h =
            All-append_capital IsAmount c.capital_values (capital_of_number parse_amount key x) h
              (All-capital_of_number key x)
        All-collect key (mapping fields) c h = All-collect_fields fields c h
        All-collect key (items ideas) c h = All-collect_items key ideas c h
        All-collect key nothing c h = h

        All-collect_items :
            (key : Option String) (ideas : Ideas F) (c : Collection F)
            → All IsAmount c.capital_values
            → All IsAmount (collect_items parse_amount key ideas c).capital_values
        All-collect_items key nil c h = h
        All-collect_items key (cons idea ideas) c h =
            All-collect_items key ideas (collect parse_amount key idea c) (All-collect key idea c h)

        All-collect_fields :
            (fields : Fields F) (c : Collection F)
            → All IsAmount c.capital_values
            → All IsAmount (collect_fields parse_amount fields c).capital_values
        All-collect_fields end c h = h
        All-collect_fields (field key item fields) c h =
            let told = record c { metadata_reasons = field_reasons c.metadata_reasons key item } in
            All-collect_fields fields (collect parse_amount (some key) item told)
              (All-collect (some key) item told h)
