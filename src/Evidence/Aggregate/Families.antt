-- ===== src/Evidence/Aggregate/Families.antt =====
-- The packages of an aggregation divide the evidence among the strategy families.
use crypto_research_agent.Common.{
  ℕ, ◌+◌, ◌≤◌, ◌≡◌, refl, sym, ap, subst, ◌∙◌, String, Bool, true, false, not, Option, List, [],
  ◌∷◌, map, arith, inl, inr, keep, count_if, length, contains, IsDistinct, eq_refl, string_eq, ◌=?◌,
  All, Bool-cases, ok, bind-ok, if_ok-err, ok_injective, traverse,
}
use crypto_research_agent.Common.Float.{Float}
use crypto_research_agent.Common.Sorting.{IsSorted, sort_by-IsSorted}
use crypto_research_agent.Common.TextOrder.{text_before, text_before_asym, text_before_trans}
use crypto_research_agent.Evidence.Models.{PaperEvidencePackage}
use crypto_research_agent.Evidence.Aggregate.{
  PaperEvidenceStatus, closed, filled, success, failed, rejected, blocked, is_closed_status,
  is_failed_status, is_blocked_status, PaperEvidenceInput, PaperItem, unique_from, coerce_input,
  is_closed_item, family_figures, accepts_package, is_of, package_of, families_of, of_family,
  aggregate_paper_evidence,
}
use crypto_research_agent.Evidence.Aggregate.Names.{
  contains-unique_from, IsDistinct-unique_from, contains-sort_by, IsDistinct-sort_by, All-Unit,
}

length-keep : {A : Type 0} (p : A → Bool) (xs : List A) → length (keep p xs) ≡ count_if p xs
length-keep p [] = refl
length-keep p (x ∷ xs) = ground (arith, length-keep p xs)

is_closed-is_failed : (s : PaperEvidenceStatus) → is_closed_status s ≡ not (is_failed_status s)
is_closed-is_failed closed = refl
is_closed-is_failed filled = refl
is_closed-is_failed success = refl
is_closed-is_failed failed = refl
is_closed-is_failed rejected = refl
is_closed-is_failed blocked = refl

is_blocked-is_failed :
    (s : PaperEvidenceStatus) → is_blocked_status s ≡ true → is_failed_status s ≡ true
is_blocked-is_failed closed e = cc
is_blocked-is_failed filled e = cc
is_blocked-is_failed success e = cc
is_blocked-is_failed failed e = cc
is_blocked-is_failed rejected e = cc
is_blocked-is_failed blocked e = refl

module _ {F : Type 0} ⦃f : Float F⦄ where
  -- the sizes of the packages together
  abbrev pub sample_total : List (PaperEvidencePackage F) → ℕ
  sample_total [] = 0
  sample_total (p ∷ ps) = p.sample_size + sample_total ps

  -- An item is closed or failed, and blocked only when failed.
  pub counts_of :
      (items : List (PaperEvidenceInput F))
      → (count_if is_closed_item items + count_if (λ i. is_failed_status i.status) items
          ≡ length items)
        × (count_if (λ i. is_blocked_status i.status) items
            ≤ count_if (λ i. is_failed_status i.status) items)
  counts_of [] = (refl, omega arith)
  counts_of (item ∷ items) =
      let (sum, part) = counts_of items in
      let apart = is_closed-is_failed item.status in
      let within = is_blocked-is_failed item.status in
      (ground (arith, sum, apart), ground (arith, part, within))

  module _ (items : List (PaperEvidenceInput F)) where
    abbrev figured : String → PaperEvidencePackage F
    figured family = family_figures family (keep (is_of family) items)

    traverse-package_of :
        (families : List String) (packages : List (PaperEvidencePackage F))
        → traverse (package_of items) families ≡ ok packages
        → packages ≡ map figured families
    unfolding package_of
    traverse-package_of [] packages h = sym (ok_injective h)
    traverse-package_of (family ∷ families) packages h =
        let (p, one, h) = bind-ok (package_of items family) _ h in
        let (ps, more, h) = bind-ok (traverse (package_of items) families) _ h in
        let (_, made) = if_ok-err (accepts_package (figured family)) _ _ one in
        sym (ok_injective h)
        ∙ ap (λ q. q ∷ ps) (sym made)
        ∙ ap (λ qs. figured family ∷ qs) (traverse-package_of families ps more)

  -- A family that is not among the others adds its own items.
  count_if-families :
      (family : String) (families : List String) (items : List (PaperEvidenceInput F))
      → contains family families ≡ false
      → count_if (is_of family) items + count_if (λ i. contains i.strategy_family families) items
        ≡ count_if (λ i. contains i.strategy_family (family ∷ families)) items
  unfolding contains
  count_if-families family families [] n = refl
  count_if-families family families (item ∷ items) n =
      let rest = count_if-families family families items n in
      elim (Bool-cases (item.strategy_family =? family)) [
        | inl e ↦
            let same : item.strategy_family ≡ family =
              (string_eq.beq_iff item.strategy_family family).0 e in
            let apart : contains item.strategy_family families ≡ false =
              ap (λ x. contains x families) same ∙ n in
            rw (e, apart) (ground (arith, rest))
        | inr e ↦ rw e (ground (arith, rest))
      ]

  count_none : (items : List (PaperEvidenceInput F)) → count_if (λ i. false) items ≡ 0
  count_none [] = refl
  count_none (item ∷ items) = omega (arith, count_none items)

  sample_total-count_if :
      (items : List (PaperEvidenceInput F)) (families : List String)
      → IsDistinct families
      → sample_total (map (figured items) families)
        ≡ count_if (λ i. contains i.strategy_family families) items
  unfolding contains
  sample_total-count_if items [] d = sym (count_none items)
  sample_total-count_if items (family ∷ families) (n, d) = omega (
    arith,
    length-keep (is_of family) items,
    sample_total-count_if items families d,
    count_if-families family families items n,
  )

  -- Every item counts when its family is among the families.
  count_if-all :
      (families : List String) (items : List (PaperEvidenceInput F))
      → ((a : String)
          → contains a (map (λ i. i.strategy_family) items) ≡ true
          → contains a families ≡ true)
      → count_if (λ i. contains i.strategy_family families) items ≡ length items
  unfolding contains
  count_if-all families [] h = refl
  count_if-all families (item ∷ items) h =
      let here : contains item.strategy_family families ≡ true =
        h item.strategy_family (ground (arith, eq_refl item.strategy_family)) in
      let rest = count_if-all families items (λ a e. h a (ground (arith, e))) in
      rw here (omega (arith, rest))

  families_of-contains :
      (items : List (PaperEvidenceInput F)) (a : String)
      → contains a (families_of items) ≡ contains a (map (λ i. i.strategy_family) items)
  unfolding families_of contains
  families_of-contains items a =
      let found = map (λ i. i.strategy_family) items in
      contains-sort_by a (unique_from found []) ∙ contains-unique_from a found [] ∙ refl

  families_of-IsDistinct : (items : List (PaperEvidenceInput F)) → IsDistinct (families_of items)
  unfolding families_of
  families_of-IsDistinct items =
      IsDistinct-sort_by _ (IsDistinct-unique_from (map (λ i. i.strategy_family) items) [] tt)

  families_of-IsSorted :
      (items : List (PaperEvidenceInput F)) → IsSorted text_before (families_of items)
  unfolding families_of
  families_of-IsSorted items =
      let found = unique_from (map (λ i. i.strategy_family) items) [] in
      sort_by-IsSorted text_before (λ _. Unit) (λ x y _ _. text_before_asym x y)
        (λ x y z _ _ _. text_before_trans x y z) found (All-Unit found)

  map-families :
      (items : List (PaperEvidenceInput F)) (families : List String)
      → map (λ p. p.strategy_family) (map (figured items) families) ≡ families
  map-families items [] = refl
  map-families items (family ∷ families) = ap (λ l. family ∷ l) (map-families items families)

  -- The package has the items of its family, each closed or failed, and blocked only when failed.
  abbrev pub Accounts : List (PaperEvidenceInput F) → PaperEvidencePackage F → Type 0
  Accounts items p =
      (p.sample_size ≡ count_if (is_of p.strategy_family) items)
      × (p.closed_count + p.failed_count ≡ p.sample_size)
      × (p.blocked_count ≤ p.failed_count)

  map-Accounts :
      (items : List (PaperEvidenceInput F)) (families : List String)
      → All (Accounts items) (map (figured items) families)
  map-Accounts items [] = tt
  map-Accounts items (family ∷ families) =
      let (sum, part) = counts_of (keep (is_of family) items) in
      ((length-keep (is_of family) items, sum, part), map-Accounts items families)

  -- An aggregation that ends with packages has one for each family of the evidence, in the order of their
  -- names. Each counts the items of its family, as closed or failed, and as blocked only when failed, and
  -- the packages together count every item once.
  pub aggregate_paper_evidence-Accounts :
      (items : List (PaperItem F)) (family : Option String)
      {packages : List (PaperEvidencePackage F)}
      → aggregate_paper_evidence items family ≡ ok packages
      → (inputs : List (PaperEvidenceInput F)) × (traverse (coerce_input family) items ≡ ok inputs)
        × (map (λ p. p.strategy_family) packages ≡ families_of (of_family family inputs))
        × IsDistinct (families_of (of_family family inputs))
        × IsSorted text_before (families_of (of_family family inputs))
        × All (Accounts (of_family family inputs)) packages
        × (sample_total packages ≡ length (of_family family inputs))
  unfolding aggregate_paper_evidence
  aggregate_paper_evidence-Accounts items family {packages = packages} h =
      let (inputs, coerced, h) = bind-ok (traverse (coerce_input family) items) _ h in
      let kept = of_family family inputs in
      let families = families_of kept in
      let made = traverse-package_of kept families packages h in
      (
        inputs,
        coerced,
        ap (map (λ p. p.strategy_family)) made ∙ map-families kept families,
        families_of-IsDistinct kept,
        families_of-IsSorted kept,
        subst (All (Accounts kept)) (sym made) (map-Accounts kept families),
        ap sample_total made
            ∙ sample_total-count_if kept families (families_of-IsDistinct kept)
            ∙ count_if-all families kept (λ a e. families_of-contains kept a ∙ e),
      )
