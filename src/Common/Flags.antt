-- ===== src/Common/Flags.antt =====
-- The idiom of every gate of the program: a list of reason codes, each appended under a condition.
use mathlib.Core.Path.{◌≡◌, refl}
use mathlib.Core.Logic.{◌↔◌}
use mathlib.Core.Bool.{Bool, true, false, not}
use mathlib.Core.List.{List, [], ◌∷◌}
use native.Mathlib.Omega.{arith}
use crypto_research_agent.Common.Lists.{is_empty, All}
use crypto_research_agent.Common.Equality.{Eq, contains, IsDistinct}

module _ {ℓ} {R : Type ℓ} where
  -- `if c1: reasons.append(r1)`, `if c2: reasons.append(r2)`, and so on, in this order
  unfoldable pub flags : List (Bool × R) → List R
  flags [] = []
  flags ((true, r) ∷ fs) = r ∷ flags fs
  flags ((false, r) ∷ fs) = flags fs

  -- No condition of the list holds.
  abbrev pub Clear : List (Bool × R) → Type 0
  Clear [] = Unit
  Clear ((c, r) ∷ fs) = (c ≡ false) × Clear fs

  pub flags-empty_iff : (fs : List (Bool × R)) → (is_empty (flags fs) ≡ true) ↔ Clear fs
  unfolding flags
  flags-empty_iff [] = (λ _. tt, λ _. refl)
  flags-empty_iff ((true, r) ∷ fs) = (λ e. cc, λ h. cc)
  flags-empty_iff ((false, r) ∷ fs) =
      (λ e. (refl, (flags-empty_iff fs).0 e), λ h. (flags-empty_iff fs).1 h.1)

  abbrev pub codes_of : List (Bool × R) → List R
  codes_of [] = []
  codes_of ((c, r) ∷ fs) = r ∷ codes_of fs

  pub All-flags {κ} :
      (P : R → Type κ) (fs : List (Bool × R)) → All P (codes_of fs) → All P (flags fs)
  unfolding flags
  All-flags P [] h = tt
  All-flags P ((true, r) ∷ fs) (p, h) = (p, All-flags P fs h)
  All-flags P ((false, r) ∷ fs) (p, h) = All-flags P fs h

  pub is_empty-flag : (c : Bool) (r : R) → is_empty (flags ((c, r) ∷ [])) ≡ not c
  unfolding flags
  is_empty-flag true r = refl
  is_empty-flag false r = refl

module _ {ℓ} {R : Type ℓ} ⦃e : Eq R⦄ where
  -- A code that is not on the list is not reported.
  pub contains-flags-false :
      (r : R) (fs : List (Bool × R))
      → contains r (codes_of fs) ≡ false
      → contains r (flags fs) ≡ false
  unfolding flags contains
  contains-flags-false r [] h = refl
  contains-flags-false r ((true, s) ∷ fs) h = ground (arith, contains-flags-false r fs)
  contains-flags-false r ((false, s) ∷ fs) h = ground (arith, contains-flags-false r fs)

  -- Distinct codes are reported at most once each.
  pub flags-IsDistinct : (fs : List (Bool × R)) → IsDistinct (codes_of fs) → IsDistinct (flags fs)
  unfolding flags
  flags-IsDistinct [] h = tt
  flags-IsDistinct ((true, r) ∷ fs) h = (contains-flags-false r fs h.0, flags-IsDistinct fs h.1)
  flags-IsDistinct ((false, r) ∷ fs) h = flags-IsDistinct fs h.1
