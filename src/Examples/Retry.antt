-- ===== src/Examples/Retry.antt =====
-- A model that answers at the second call.
use crypto_research_agent.Common.{ℕ, zero, suc, ◌≡◌}
use crypto_research_agent.Llm.Retry.{
  Reply, answered, runtime_error, StopsAt, state_before, retry_structured_output,
  retry_structured_output-StopsAt,
}

abbrev model : ℕ → Reply ℕ × ℕ
model zero = (runtime_error "invalid_json", 1)
model (suc n) = (answered 7, suc (suc n))

retry_structured_output-StopsAt_example :
    (n : ℕ) × StopsAt model 2 n 0
    × (retry_structured_output model 0 ≡ model (state_before model n 0))
retry_structured_output-StopsAt_example = retry_structured_output-StopsAt model 0
