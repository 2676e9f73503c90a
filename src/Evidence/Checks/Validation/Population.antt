-- ===== src/Evidence/Checks/Validation/Population.antt =====
-- Validation evidence that comes without an id.
use Prim.Native.Char.{code}
use Prim.Native.String.append
use crypto_research_agent.Common.{
  ◌≡◌, refl, sym, ap, subst, ◌∙◌, String, append_text, Bool, true, false, not, ◌&&◌, Option, none,
  some, arith, ◌==◌, is_empty, is_blank, strip, rstrip, lstrip, is_space, eq_refl, string_eq, ok,
  &&_iff, Bool-cases, inl, inr,
}
use crypto_research_agent.Common.Int.{ℤ}
use crypto_research_agent.Common.Float.{Float}
use crypto_research_agent.Common.Dedupe.{dedupe_nonempty}
use crypto_research_agent.Common.Strip.{strip-strip, dedupe_nonempty_twice}
use crypto_research_agent.Evidence.Models.{ValidationEvidence}
use crypto_research_agent.Evidence.Checks.{strip_nonblank, strip_optional}
use crypto_research_agent.Evidence.Checks.Validation.{
  RawNumber, as_data, EvidencePayload, canonical_payload, has_finite_floats, accepts_numbers,
  normalize_evidence, reject_approval_contradictions, stable_validation_evidence_id,
  reject_noncanonical_evidence_id, validation_evidence,
}

abbrev pub has_no_space : String → Bool
has_no_space String.[] = true
has_no_space (String.◌∷◌ c s) = not (is_space (code c)) && has_no_space s

not-eq-true : (b : Bool) → not b ≡ true → b ≡ false
not-eq-true b h = ground arith

rstrip_of_no_space : (s : String) → has_no_space s ≡ true → rstrip s ≡ s
unfolding rstrip
rstrip_of_no_space String.[] h = refl
rstrip_of_no_space (String.◌∷◌ c s) h =
    let (solid, rest) = (&&_iff (not (is_space (code c))) (has_no_space s)).0 h in
    let stays : is_space (code c) ≡ false = not-eq-true (is_space (code c)) solid in
    rw (rstrip_of_no_space s rest, stays)
      (elim (Bool-cases (is_blank s)) [ inl e ↦ rw e refl | inr e ↦ rw e refl ])

lstrip_of_no_space : (s : String) → has_no_space s ≡ true → lstrip s ≡ s
unfolding lstrip
lstrip_of_no_space String.[] h = refl
lstrip_of_no_space (String.◌∷◌ c s) h =
    let (solid, _) = (&&_iff (not (is_space (code c))) (has_no_space s)).0 h in
    rw (not-eq-true (is_space (code c)) solid) refl

has_no_space-append :
    (s t : String)
    → has_no_space s ≡ true
    → has_no_space t ≡ true
    → has_no_space (append_text s t) ≡ true
has_no_space-append String.[] t h k = subst (λ u. has_no_space u ≡ true) (sym (append.nil t)) k
has_no_space-append (String.◌∷◌ c s) t h k =
    let (solid, rest) = (&&_iff (not (is_space (code c))) (has_no_space s)).0 h in
    rw (append.cons c s t, solid) (has_no_space-append s t rest k)

abbrev id_prefix : String
id_prefix = "validation-"

strip-prefixed :
    (s : String) → has_no_space s ≡ true → strip (append_text id_prefix s) ≡ append_text id_prefix s
unfolding strip
strip-prefixed s h =
    let solid = has_no_space-append id_prefix s (unfold is_space in refl) h in
    ap rstrip (lstrip_of_no_space (append_text id_prefix s) solid)
    ∙ rstrip_of_no_space (append_text id_prefix s) solid

filled_of_append : (s t : String) → is_blank s ≡ false → is_blank (append_text s t) ≡ false
filled_of_append String.[] t h = cc
filled_of_append (String.◌∷◌ c s) t h = rw (append.cons c s t) refl

abbrev pub strip_or_none : Option String → Option String
strip_or_none none = none
strip_or_none (some v) = some (strip v)

abbrev pub is_filled : Option String → Bool
is_filled none = true
is_filled (some v) = not (is_blank (strip v))

strip_optional-accepts :
    (v : Option String) → is_filled v ≡ true → strip_optional v ≡ ok (strip_or_none v)
unfolding strip_nonblank
strip_optional-accepts none h = refl
strip_optional-accepts (some v) h = ground arith

module _ {F : Type 0} ⦃f : Float F⦄ where
  open f use {decimal, is_finite, le}

  pub record IsAcceptable (e : ValidationEvidence F) : Type 0 where
    pub run_id : is_filled e.run_id ≡ true
    pub strategy_family : is_blank (strip e.strategy_family) ≡ false
    pub symbol : is_blank (strip e.symbol) ≡ false
    pub timeframe : is_blank (strip e.timeframe) ≡ false
    pub validator_name : is_blank (strip e.validator_name) ≡ false
    pub numbers : accepts_numbers e ≡ true
    pub has_splits : (e.approved && (e.walk_forward_split_count == 0)) ≡ false
    pub is_unblocked : (e.approved && not (is_empty (dedupe_nonempty e.blocked_reasons))) ≡ false

  abbrev pub normalized_with_id : String → ValidationEvidence F → ValidationEvidence F
  normalized_with_id id e = record e {
    evidence_id = id;
    run_id = strip_or_none e.run_id;
    strategy_family = strip e.strategy_family;
    symbol = strip e.symbol;
    timeframe = strip e.timeframe;
    validator_name = strip e.validator_name;
    blocked_reasons = dedupe_nonempty e.blocked_reasons;
  }

  canonical_payload-normalized :
      (id : String) (e : ValidationEvidence F)
      → canonical_payload (as_data (normalized_with_id id e)) ≡ canonical_payload (as_data e)
  canonical_payload-normalized id e =
      rw
        (
          strip-strip e.strategy_family,
          strip-strip e.symbol,
          strip-strip e.timeframe,
          strip-strip e.validator_name,
          dedupe_nonempty_twice e.blocked_reasons,
        )
        refl

  numbers-has_finite_floats :
      (e : ValidationEvidence F) → accepts_numbers e ≡ true → has_finite_floats (as_data e) ≡ true
  unfolding accepts_numbers has_finite_floats
  numbers-has_finite_floats e h = ground arith

  normalize_evidence-accepts :
      (id : String) (e : ValidationEvidence F)
      → strip id ≡ id
      → is_blank id ≡ false
      → IsAcceptable e
      → normalize_evidence (record e { evidence_id = id }) ≡ ok (normalized_with_id id e)
  unfolding normalize_evidence strip_nonblank accepts_numbers
  normalize_evidence-accepts id e same filled a =
      rw
        (
          same,
          filled,
          strip_optional-accepts e.run_id a.run_id,
          a.strategy_family,
          a.symbol,
          a.timeframe,
          a.validator_name,
          a.numbers,
        )
        refl

  module _ (hexdigest : EvidencePayload (RawNumber F) → String)
      (digits : (p : EvidencePayload (RawNumber F)) → has_no_space (hexdigest p) ≡ true) where
    -- Acceptable evidence whose numbers are given as floats, without an id, is built, under the id of its canonical payload, which the check
    -- of the id then accepts.
    pub validation_evidence-generated :
        (float_of : ℤ → F) (e : ValidationEvidence F)
        → IsAcceptable e
        → validation_evidence hexdigest float_of (record { given_id = none; evidence = as_data e })
          ≡ ok (
              normalized_with_id
                (append_text "validation-" (hexdigest (canonical_payload (as_data e))))
                e)
    unfolding validation_evidence stable_validation_evidence_id reject_noncanonical_evidence_id
        reject_approval_contradictions
    validation_evidence-generated float_of e a =
        let id = append_text "validation-" (hexdigest (canonical_payload (as_data e))) in
        let finite : has_finite_floats (as_data e) ≡ true = numbers-has_finite_floats e a.numbers in
        let finite_again : has_finite_floats (as_data (normalized_with_id id e)) ≡ true =
          unfold has_finite_floats in numbers-has_finite_floats e a.numbers in
        rw
          (
            finite,
            normalize_evidence-accepts id e
                (strip-prefixed (hexdigest (canonical_payload (as_data e)))
                  (digits (canonical_payload (as_data e))))
                (filled_of_append id_prefix (hexdigest (canonical_payload (as_data e))) refl) a,
            finite_again,
            canonical_payload-normalized id e,
            eq_refl id,
            a.has_splits,
            a.is_unblocked,
          )
          refl
