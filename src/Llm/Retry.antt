-- ===== src/Llm/Retry.antt =====
-- `_retry_structured_output` of src/crypto_alpha_agent/llm/runtime.py. A call of the language model is
-- a parameter: it takes the state of the world to a reply and the next state.
use crypto_research_agent.Common.{
  ℕ, zero, suc, ◌≤◌, ◌<◌, ◌≡◌, refl, ◌∙◌, String, Bool, true, false, not, ◌||◌, List, [], ◌∷◌,
  arith, ◌==◌, if◌then◌else◌, contains, string_eq, ◌⊎◌, inl, inr, Bool-cases,
}

-- The reply of a call: a value, an `LLMRuntimeError` with its reason code, or any other exception.
pub data Reply {ℓ} (A : Type ℓ) : Type ℓ where
  answered : A → Reply A
  runtime_error : String → Reply A
  other_error : String → Reply A

abbrev pub structured_output_attempts : ℕ
structured_output_attempts = 3

abbrev pub retryable_structured_reason_codes : List String
retryable_structured_reason_codes =
    "invalid_json" ∷ "invalid_llm_response_type" ∷ "schema_validation_failed" ∷ []

unfoldable pub is_retryable {ℓ} : {A : Type ℓ} → Reply A → Bool
is_retryable (answered _) = false
is_retryable (runtime_error reason_code) = contains reason_code retryable_structured_reason_codes
is_retryable (other_error _) = false

module _ {ℓ κ} {A : Type ℓ} {S : Type κ} (call : S → Reply A × S) where
  -- the loop with that many attempts left
  unfoldable pub retry_from : ℕ → S → Reply A × S
  retry_from zero s = (other_error "unreachable structured LLM retry state", s)
  retry_from (suc left) s =
      let reply = call s in
      let again = retry_from left reply.1 in
      if (left == 0) || not (is_retryable reply.0) then reply else again

  unfoldable pub retry_structured_output : S → Reply A × S
  unfolding retry_from
  retry_structured_output s = retry_from structured_output_attempts s

  -- the state before the call with that index
  abbrev pub state_before : ℕ → S → S
  state_before zero s = s
  state_before (suc n) s = state_before n (call s).1

  -- The calls stop with the one of index `n`: all before it gave a retryable error, and it gave none
  -- unless it was the last one allowed.
  pub record StopsAt (last n : ℕ) (s : S) : Type 0 where
    pub allowed : n ≤ last
    pub retried : (m : ℕ) → m < n → is_retryable (call (state_before m s)).0 ≡ true
    pub stopped : (n ≡ last) ⊎ (is_retryable (call (state_before n s)).0 ≡ false)

  never_zero : (n : ℕ) → (suc n == 0) ≡ false
  never_zero n = ground arith

  retry_from-step :
      (last : ℕ) (s : S)
      → is_retryable (call s).0 ≡ true
      → retry_from (suc (suc last)) s ≡ retry_from (suc last) (call s).1
  unfolding retry_from
  retry_from-step last s h = rw (never_zero last, h) refl

  retried_later :
      (n : ℕ) (s : S)
      → is_retryable (call s).0 ≡ true
      → ((m : ℕ) → m < n → is_retryable (call (state_before m (call s).1)).0 ≡ true)
      → (m : ℕ) → m < suc n
      → is_retryable (call (state_before m s)).0 ≡ true
  retried_later n s h k zero l = h
  retried_later n s h k (suc m) l = k m (omega arith)

  retry_from-StopsAt :
      (last : ℕ) (s : S)
      → (n : ℕ) × StopsAt last n s × (retry_from (suc last) s ≡ call (state_before n s))
  unfolding retry_from
  retry_from-StopsAt zero s = (
    0,
    record { allowed = omega arith; retried = λ m h. absurd (omega arith); stopped = inl refl },
    refl,
  )
  retry_from-StopsAt (suc last) s = elim (Bool-cases (is_retryable (call s).0)) [
    | inr final ↦ (
      0,
      record { allowed = omega arith; retried = λ m h. absurd (omega arith); stopped = inr final },
      rw (never_zero last, final) refl,
    )
    | inl retry ↦
        let (n, stops, same) = retry_from-StopsAt last (call s).1 in
        (
          suc n,
          record {
            allowed = omega (arith, stops.allowed);
            retried = retried_later n s retry stops.retried;
            stopped = ground (arith, stops.stopped);
          },
          retry_from-step last s retry ∙ same,
        )
  ]

  -- A structured call asks the model at most three times, and its result is that of the last time it
  -- asks: every reply before that was a retryable error, and it stops before the third only at a reply
  -- that is not one.
  pub retry_structured_output-StopsAt :
      (s : S) → (n : ℕ) × StopsAt 2 n s × (retry_structured_output s ≡ call (state_before n s))
  unfolding retry_structured_output
  retry_structured_output-StopsAt s = retry_from-StopsAt 2 s
