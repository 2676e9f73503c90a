-- ===== src/Common/Strip.antt =====
-- Stripping a text twice is stripping it once, and so is cleaning a list of texts.
use Prim.Native.Char.{code}
use Prim.Native.String.{String}
use mathlib.Core.Path.{◌≡◌, refl, sym, ap, ap₂, ◌∙◌}
use mathlib.Core.Bool.{Bool, true, false, not, ◌&&◌}
use mathlib.Core.Logic.{inl, inr}
use mathlib.Core.List.{List, [], ◌∷◌, ◌++◌, map, append-nil, append_assoc}
use native.Mathlib.Omega.{arith}
use crypto_research_agent.Common.Tests.{Bool-cases}
use crypto_research_agent.Common.Lists.{All, All-append}
use crypto_research_agent.Common.Text.{is_space, is_blank, lstrip, rstrip, strip}
use crypto_research_agent.Common.Equality.{string_eq, contains, IsDistinct, contains-append}
use crypto_research_agent.Common.Dedupe.{
  dedupe_from, dedupe, dedupe_nonempty, dedupe_clean, IsNonblank,
}

-- The text is empty or starts with something else than a space.
abbrev is_solid : String → Bool
is_solid String.[] = true
is_solid (String.◌∷◌ c s) = not (is_space (code c))

lstrip-solid : (s : String) → is_solid (lstrip s) ≡ true
unfolding lstrip
lstrip-solid String.[] = refl
lstrip-solid (String.◌∷◌ c s) = elim (Bool-cases (is_space (code c))) [
  | inl space ↦ rw space (lstrip-solid s)
  | inr other ↦ rw other (ground arith)
]

lstrip_of_solid : (s : String) → is_solid s ≡ true → lstrip s ≡ s
unfolding lstrip
lstrip_of_solid String.[] h = refl
lstrip_of_solid (String.◌∷◌ c s) h = ground arith

rstrip-solid : (s : String) → is_solid s ≡ true → is_solid (rstrip s) ≡ true
unfolding rstrip
rstrip-solid String.[] h = refl
rstrip-solid (String.◌∷◌ c s) h = ground arith

rstrip-rstrip : (s : String) → rstrip (rstrip s) ≡ rstrip s
unfolding rstrip
rstrip-rstrip String.[] = refl
rstrip-rstrip (String.◌∷◌ c s) = elim (Bool-cases (is_blank (rstrip s) && is_space (code c))) [
  | inl gone ↦ rw gone refl
  | inr stays ↦ rw stays (rw (rstrip-rstrip s) (rw stays refl))
]

pub strip-strip : (s : String) → strip (strip s) ≡ strip s
unfolding strip
strip-strip s =
    ap rstrip (lstrip_of_solid (rstrip (lstrip s)) (rstrip-solid (lstrip s) (lstrip-solid s)))
    ∙ rstrip-rstrip (lstrip s)

still_fresh :
    (v : String) (vs out : List String)
    → contains v vs ≡ false
    → All (λ w. contains w out ≡ false) vs
    → All (λ w. contains w (out ++ v ∷ []) ≡ false) vs
unfolding contains
still_fresh v [] out n h = tt
still_fresh v (w ∷ vs) out n h = (
  ground (arith, contains-append w out (v ∷ []), string_eq.beq_iff v w, string_eq.beq_iff w v),
  still_fresh v vs out (ground arith) h.1,
)

-- A list of distinct texts that are not blank is added as it is.
dedupe_from-fresh :
    (vs out : List String)
    → IsDistinct vs
    → All IsNonblank vs
    → All (λ v. contains v out ≡ false) vs
    → dedupe_from vs out ≡ out ++ vs
unfolding dedupe_from
dedupe_from-fresh [] out d b h = sym (append-nil out)
dedupe_from-fresh (v ∷ vs) out d b h =
    rw (b.0, h.0)
      (dedupe_from-fresh vs (out ++ v ∷ []) d.1 b.1 (still_fresh v vs out d.0 h.1)
        ∙ append_assoc out (v ∷ []) vs)

none_contained : (vs : List String) → All (λ v. contains v [] ≡ false) vs
unfolding contains
none_contained [] = tt
none_contained (v ∷ vs) = (refl, none_contained vs)

pub dedupe-clean : (vs : List String) → IsDistinct vs → All IsNonblank vs → dedupe vs ≡ vs
unfolding dedupe
dedupe-clean vs d b = dedupe_from-fresh vs [] d b (none_contained vs)

All-dedupe_from {κ} :
    (P : String → Type κ) (vs out : List String) → All P vs → All P out → All P (dedupe_from vs out)
unfolding dedupe_from
All-dedupe_from P [] out h k = k
All-dedupe_from P (v ∷ vs) out h k = elim (Bool-cases (not (is_blank v) && not (contains v out))) [
  | inl fresh ↦
      rw fresh (All-dedupe_from P vs (out ++ v ∷ []) h.1 (All-append P out (v ∷ []) k (h.0, tt)))
  | inr known ↦ rw known (All-dedupe_from P vs out h.1 k)
]

IsStripped : String → Type 0
IsStripped v = strip v ≡ v

map-strip-IsStripped : (vs : List String) → All IsStripped (map strip vs)
unfolding IsStripped
map-strip-IsStripped [] = tt
map-strip-IsStripped (v ∷ vs) = (strip-strip v, map-strip-IsStripped vs)

map-strip_fixed : (vs : List String) → All IsStripped vs → map strip vs ≡ vs
unfolding IsStripped
map-strip_fixed [] h = refl
map-strip_fixed (v ∷ vs) h = ap₂ ◌∷◌ h.0 (map-strip_fixed vs h.1)

-- A cleaned list is not changed by cleaning it again.
pub dedupe_nonempty_twice :
    (vs : List String) → dedupe_nonempty (dedupe_nonempty vs) ≡ dedupe_nonempty vs
unfolding dedupe_nonempty
dedupe_nonempty_twice vs =
    let (d, b) = dedupe_clean (map strip vs) in
    let fixed : All IsStripped (dedupe (map strip vs)) =
      unfold dedupe in All-dedupe_from IsStripped (map strip vs) [] (map-strip-IsStripped vs) tt in
    ap dedupe (map-strip_fixed (dedupe (map strip vs)) fixed)
    ∙ dedupe-clean (dedupe (map strip vs)) d b
