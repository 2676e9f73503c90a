-- ===== src/Common/Division.antt =====
-- Python's `x / y` on floats, which raises on a zero divisor.
use crypto_research_agent.Common.Tests.{if◌then◌else◌}
use crypto_research_agent.Common.Raising.{Outcome, ok, err, zero_division_error}
use crypto_research_agent.Common.Float.{Float}

module _ {F : Type 0} ⦃f : Float F⦄ where
  unfoldable pub quotient_of : F → F → Outcome F
  quotient_of x y = if f.same y f.nought then err zero_division_error else ok (f.div x y)
