-- ===== src/Common/TextOrder.antt =====
-- The order of Python's `str`.
use Prim.Native.String.{String}
use Prim.Native.Char.{code}
use mathlib.Core.Path.{◌≡◌, refl}
use mathlib.Core.Bool.{Bool, true, false}
use native.Mathlib.Omega.{arith}
use crypto_research_agent.Common.Tests.{if◌then◌else◌, ltb, ◌==◌}

-- `s < t` for texts, by code points
unfoldable pub text_before : String → String → Bool
text_before s String.[] = false
text_before String.[] (String.◌∷◌ d t) = true
text_before (String.◌∷◌ c s) (String.◌∷◌ d t) =
    let rest = text_before s t in if code c == code d then rest else ltb (code c) (code d)

pub text_before_asym : (s t : String) → text_before s t ≡ true → text_before t s ≡ false
unfolding text_before
text_before_asym s String.[] h = cc
text_before_asym String.[] (String.◌∷◌ d t) h = refl
text_before_asym (String.◌∷◌ c s) (String.◌∷◌ d t) h = ground (arith, text_before_asym s t)

pub text_before_trans :
    (s t u : String) → text_before t s ≡ false → text_before u t ≡ false → text_before u s ≡ false
unfolding text_before
text_before_trans String.[] t u h g = refl
text_before_trans (String.◌∷◌ c s) String.[] u h g = cc
text_before_trans (String.◌∷◌ c s) (String.◌∷◌ d t) String.[] h g = cc
text_before_trans (String.◌∷◌ c s) (String.◌∷◌ d t) (String.◌∷◌ e u) h g =
    ground (arith, text_before_trans s t u)
