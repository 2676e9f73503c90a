-- ===== src/Common/Dedupe.antt =====
-- The order-keeping removal of repeated texts that many modules define for themselves:
-- `_dedupe` of risk/paper_gate.py, scheduler.py and pipeline/iteration_controller.py, and
-- `_dedupe_nonempty_strings` of risk/rollout.py, which strips each text first.
use Prim.Native.String.{String}
use mathlib.Core.Path.{◌≡◌, refl}
use mathlib.Core.Bool.{Bool, true, false, not, ◌&&◌, ◌||◌}
use mathlib.Core.Logic.{inl, inr}
use mathlib.Core.List.{List, [], ◌∷◌, ◌++◌, map}
use native.Mathlib.Omega.{arith}
use crypto_research_agent.Common.Tests.{if◌then◌else◌, Bool-cases}
use crypto_research_agent.Common.Lists.{All, All-append, is_empty, any, keep}
use crypto_research_agent.Common.Text.{is_blank, strip}
use crypto_research_agent.Common.Equality.{
  string_eq, contains, contains-append, IsDistinct, IsDistinct-snoc,
}

-- The loop. `seen` holds just the values of `deduped`, so one list stands for both.
unfoldable pub dedupe_from : List String → List String → List String
dedupe_from [] out = out
dedupe_from (v ∷ vs) out =
    dedupe_from vs (if not (is_blank v) && not (contains v out) then out ++ v ∷ [] else out)

unfoldable pub dedupe : List String → List String
unfolding dedupe_from
dedupe vs = dedupe_from vs []

-- the variant that strips each value before it looks at it
unfoldable pub dedupe_nonempty : List String → List String
unfolding dedupe
dedupe_nonempty vs = dedupe (map strip vs)

abbrev pub IsNonblank : String → Type 0
IsNonblank v = is_blank v ≡ false

dedupe_from-clean :
    (vs out : List String)
    → IsDistinct out
    → All IsNonblank out
    → IsDistinct (dedupe_from vs out) × All IsNonblank (dedupe_from vs out)
unfolding dedupe_from
dedupe_from-clean [] out d b = (d, b)
dedupe_from-clean (v ∷ vs) out d b = elim (Bool-cases (not (is_blank v) && not (contains v out))) [
  | inl fresh ↦ rw fresh (
      dedupe_from-clean vs (out ++ v ∷ []) (IsDistinct-snoc out v d (ground arith))
        (All-append IsNonblank out (v ∷ []) b (ground arith, tt)))
  | inr known ↦ rw known (dedupe_from-clean vs out d b)
]

-- No text is repeated and none is blank.
pub dedupe_clean : (vs : List String) → IsDistinct (dedupe vs) × All IsNonblank (dedupe vs)
unfolding dedupe
dedupe_clean vs = dedupe_from-clean vs [] tt tt

contains-dedupe_from :
    (w : String) (vs out : List String)
    → contains w (dedupe_from vs out) ≡ (contains w out || (not (is_blank w) && contains w vs))
unfolding dedupe_from contains
contains-dedupe_from w [] out = ground arith
contains-dedupe_from w (v ∷ vs) out =
    rw
      (contains-dedupe_from w vs
        (if not (is_blank v) && not (contains v out) then out ++ v ∷ [] else out))
      (ground (arith, contains-append w out (v ∷ []), string_eq.beq_iff w v))

-- Every text that is not blank is kept.
pub contains-dedupe :
    (w : String) (vs : List String) → contains w (dedupe vs) ≡ (not (is_blank w) && contains w vs)
unfolding dedupe contains
contains-dedupe w vs = contains-dedupe_from w vs []

-- `len(set(xs)) == len(xs)`
unfoldable pub distinct : List String → Bool
distinct [] = true
distinct (x ∷ xs) = not (contains x xs) && distinct xs

abbrev pub is_nonblank : String → Bool
is_nonblank v = not (is_blank v)

append-nonempty : (xs : List String) (v : String) → is_empty (xs ++ v ∷ []) ≡ false
append-nonempty [] v = refl
append-nonempty (x ∷ xs) v = refl

dedupe_from-is_empty :
    (vs out : List String)
    → is_empty (dedupe_from vs out) ≡ (is_empty out && not (any is_nonblank vs))
unfolding dedupe_from contains
dedupe_from-is_empty [] out = ground arith
dedupe_from-is_empty (v ∷ vs) [] =
    rw (dedupe_from-is_empty vs (if not (is_blank v) && not (contains v []) then v ∷ [] else []))
      (ground arith)
dedupe_from-is_empty (v ∷ vs) (x ∷ out) =
    rw
      (dedupe_from-is_empty vs
        (if not (is_blank v) && not (contains v (x ∷ out)) then (x ∷ out) ++ v ∷ [] else x ∷ out))
      (ground arith)

-- Nothing is kept exactly of a list of empty texts.
pub dedupe-is_empty : (vs : List String) → is_empty (dedupe vs) ≡ not (any is_nonblank vs)
unfolding dedupe
dedupe-is_empty vs = dedupe_from-is_empty vs []

any-of_clean : (vs : List String) → All IsNonblank vs → any is_nonblank vs ≡ not (is_empty vs)
any-of_clean [] h = refl
any-of_clean (v ∷ vs) (p, h) = ground arith

pub any-dedupe : (vs : List String) → any is_nonblank (dedupe vs) ≡ any is_nonblank vs
any-dedupe vs = ground (arith, any-of_clean (dedupe vs) (dedupe_clean vs).1, dedupe-is_empty vs)

pub any-keep_nonblank :
    (vs : List String) → any is_nonblank (keep is_nonblank vs) ≡ any is_nonblank vs
any-keep_nonblank [] = refl
any-keep_nonblank (v ∷ vs) = ground (arith, any-keep_nonblank vs)

pub any-keep_stripped :
    (vs : List String)
    → any is_nonblank (map strip (keep (λ v. not (is_blank (strip v))) vs))
      ≡ any (λ v. not (is_blank (strip v))) vs
any-keep_stripped [] = refl
any-keep_stripped (v ∷ vs) = ground (arith, any-keep_stripped vs)

pub any-append {ℓ} :
    {A : Type ℓ} (p : A → Bool) (xs ys : List A) → any p (xs ++ ys) ≡ (any p xs || any p ys)
any-append p [] ys = refl
any-append p (x ∷ xs) ys = ground (arith, any-append p xs ys)
