-- ===== src/Evidence/Checks/Validation/Revalidation.antt =====
-- Validation evidence that is built once is accepted again, and an id that the model makes itself is
-- always the canonical one.
use crypto_research_agent.Common.{
  ◌≡◌, refl, sym, ap, subst, ◌∙◌, String, true, false, not, ◌&&◌, Option, none, some, ◌==◌,
  is_empty, is_blank, strip, ◌=?◌, string_eq, ok, value_error, validation_error, raise_if, bind-ok,
  ok_injective, raise_if-ok, not-eq-false,
}
use crypto_research_agent.Common.Int.{ℤ}
use crypto_research_agent.Common.Float.{Float}
use crypto_research_agent.Common.Dedupe.{dedupe_nonempty}
use crypto_research_agent.Common.Strip.{strip-strip, dedupe_nonempty_twice}
use crypto_research_agent.Evidence.Models.{ValidationEvidence}
use crypto_research_agent.Evidence.Checks.{strip_nonblank, strip_optional}
use crypto_research_agent.Evidence.Checks.Validation.{
  RawNumber, as_data, with_numbers, converted, EvidenceData, EvidencePayload, accepts_numbers,
  normalize_evidence, reject_approval_contradictions, stable_validation_evidence_id,
  populate_evidence_id, reject_noncanonical_evidence_id, validation_evidence,
}

-- A text that is stripped and not blank.
IsClean : String → Type 0
IsClean v = (strip v ≡ v) × (is_blank v ≡ false)

strip_nonblank-IsClean : (v : String) {w : String} → strip_nonblank v ≡ ok w → IsClean w
unfolding strip_nonblank IsClean
strip_nonblank-IsClean v {w = w} h =
    let (u, guard, last) =
      bind-ok (raise_if (is_blank (strip v)) (value_error "value must not be blank"))
        (λ _. ok (strip v)) h in
    let same : strip v ≡ w = ok_injective last in
    (
      ap strip (sym same) ∙ strip-strip v ∙ same,
      ap is_blank (sym same)
          ∙ raise_if-ok (is_blank (strip v)) (value_error "value must not be blank") guard,
    )

strip_nonblank-fixed : (w : String) → IsClean w → strip_nonblank w ≡ ok w
unfolding strip_nonblank IsClean
strip_nonblank-fixed w (same, filled) = rw (same, filled) refl

strip_nonblank-accepts : (w : String) → is_blank (strip w) ≡ false → strip_nonblank w ≡ ok (strip w)
unfolding strip_nonblank
strip_nonblank-accepts w filled = rw filled refl

IsCleanOption : Option String → Type 0
IsCleanOption none = Unit
IsCleanOption (some v) = IsClean v

strip_optional-IsClean :
    (v : Option String) {w : Option String} → strip_optional v ≡ ok w → IsCleanOption w
unfolding IsCleanOption
strip_optional-IsClean none h = subst IsCleanOption (ok_injective h) tt
strip_optional-IsClean (some v) h =
    let (s, e, last) = bind-ok (strip_nonblank v) (λ s. ok (some s)) h in
    subst IsCleanOption (ok_injective last) (strip_nonblank-IsClean v e)

strip_optional-fixed : (v : Option String) → IsCleanOption v → strip_optional v ≡ ok v
unfolding IsCleanOption
strip_optional-fixed none h = refl
strip_optional-fixed (some v) h = rw (strip_nonblank-fixed v h) refl

module _ {F : Type 0} ⦃f : Float F⦄ where
  open f use {decimal, is_finite, le}

  -- What the field validators leave behind.
  record IsNormal (e : ValidationEvidence F) : Type 0 where
    evidence_id : IsClean e.evidence_id
    run_id : IsCleanOption e.run_id
    strategy_family : IsClean e.strategy_family
    symbol : IsClean e.symbol
    timeframe : IsClean e.timeframe
    validator_name : IsClean e.validator_name
    numbers : accepts_numbers e ≡ true
    reasons : dedupe_nonempty e.blocked_reasons ≡ e.blocked_reasons

  abbrev with_texts :
      ValidationEvidence F
      → String
      → Option String
      → String
      → String
      → String
      → String
      → ValidationEvidence F
  with_texts e evidence_id run_id strategy_family symbol timeframe validator_name = record e {
    evidence_id = evidence_id;
    run_id = run_id;
    strategy_family = strategy_family;
    symbol = symbol;
    timeframe = timeframe;
    validator_name = validator_name;
    blocked_reasons = dedupe_nonempty e.blocked_reasons;
  }

  normalize_evidence-IsNormal :
      (e : ValidationEvidence F) {n : ValidationEvidence F}
      → normalize_evidence e ≡ ok n
      → IsNormal n
  unfolding normalize_evidence accepts_numbers
  normalize_evidence-IsNormal e h =
      let (a, ea, h) = bind-ok (strip_nonblank e.evidence_id) _ h in
      let (b, eb, h) = bind-ok (strip_optional e.run_id) _ h in
      let (c, ec, h) = bind-ok (strip_nonblank e.strategy_family) _ h in
      let (s, es, h) = bind-ok (strip_nonblank e.symbol) _ h in
      let (t, et, h) = bind-ok (strip_nonblank e.timeframe) _ h in
      let (v, ev, h) = bind-ok (strip_nonblank e.validator_name) _ h in
      let (u, guard, h) =
        bind-ok (raise_if (not (accepts_numbers e)) (validation_error "ValidationEvidence")) _ h in
      let numbers : accepts_numbers e ≡ true =
        not-eq-false (accepts_numbers e)
          (raise_if-ok (not (accepts_numbers e)) (validation_error "ValidationEvidence") guard) in
      subst IsNormal (ok_injective h) (record {
        evidence_id = strip_nonblank-IsClean e.evidence_id ea;
        run_id = strip_optional-IsClean e.run_id eb;
        strategy_family = strip_nonblank-IsClean e.strategy_family ec;
        symbol = strip_nonblank-IsClean e.symbol es;
        timeframe = strip_nonblank-IsClean e.timeframe et;
        validator_name = strip_nonblank-IsClean e.validator_name ev;
        numbers = numbers;
        reasons = dedupe_nonempty_twice e.blocked_reasons;
      })

  normalize_evidence-fixed : (e : ValidationEvidence F) → IsNormal e → normalize_evidence e ≡ ok e
  unfolding normalize_evidence
  normalize_evidence-fixed e n =
      rw
        (
          strip_nonblank-fixed e.evidence_id n.evidence_id,
          strip_optional-fixed e.run_id n.run_id,
          strip_nonblank-fixed e.strategy_family n.strategy_family,
          strip_nonblank-fixed e.symbol n.symbol,
          strip_nonblank-fixed e.timeframe n.timeframe,
          strip_nonblank-fixed e.validator_name n.validator_name,
          n.numbers,
          n.reasons,
        )
        refl

  reject_approval_contradictions-same :
      (e : ValidationEvidence F) {n : ValidationEvidence F}
      → reject_approval_contradictions e ≡ ok n
      → e ≡ n
  unfolding reject_approval_contradictions
  reject_approval_contradictions-same e h =
      let (u, one, h) =
        bind-ok (raise_if (e.approved && (e.walk_forward_split_count == 0)) _) _ h in
      let (u, two, h) = bind-ok (raise_if (e.approved && not (is_empty e.blocked_reasons)) _) _ h in
      ok_injective h

  module _ (hexdigest : EvidencePayload (RawNumber F) → String) where
    reject_noncanonical_evidence_id-same :
        (e : ValidationEvidence F) {n : ValidationEvidence F}
        → reject_noncanonical_evidence_id hexdigest e ≡ ok n
        → e ≡ n
    unfolding reject_noncanonical_evidence_id
    reject_noncanonical_evidence_id-same e h =
        let (id, one, h) = bind-ok (stable_validation_evidence_id hexdigest (as_data e)) _ h in
        let (u, two, h) = bind-ok (raise_if (not (e.evidence_id =? id)) _) _ h in ok_injective h

    -- Evidence that was built is built from its own fields, its id among them, without a change, whether its
    -- numbers were given as ints or as floats.
    pub validation_evidence_again :
        (float_of : ℤ → F) (draft : EvidenceData F) (e : ValidationEvidence F)
        → validation_evidence hexdigest float_of draft ≡ ok e
        → validation_evidence hexdigest float_of
            (record { given_id = some e.evidence_id; evidence = as_data e })
          ≡ ok e
    unfolding validation_evidence
    validation_evidence_again float_of draft e h =
        let (p, first, h) = bind-ok (populate_evidence_id hexdigest draft) _ h in
        let (n, second, h) =
          bind-ok (normalize_evidence (with_numbers (converted hexdigest float_of) p)) _ h in
        let (c, third, h) = bind-ok (reject_noncanonical_evidence_id hexdigest n) _ h in
        let same : n ≡ c = reject_noncanonical_evidence_id-same n third in
        let last : c ≡ e = reject_approval_contradictions-same c h in
        let normal : IsNormal e =
          subst IsNormal (same ∙ last)
            (normalize_evidence-IsNormal (with_numbers (converted hexdigest float_of) p) second) in
        let canonical : reject_noncanonical_evidence_id hexdigest e ≡ ok e =
          subst (λ x. reject_noncanonical_evidence_id hexdigest x ≡ ok x) last
            (subst (λ x. reject_noncanonical_evidence_id hexdigest x ≡ ok c) same third) in
        let agreed : reject_approval_contradictions e ≡ ok e =
          subst (λ x. reject_approval_contradictions x ≡ ok e) last h in
        rw (normalize_evidence-fixed e normal, canonical) agreed
