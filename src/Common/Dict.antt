-- ===== src/Common/Dict.antt =====
-- Python's `dict` with text keys, as an association list in insertion order.
use Prim.Native.String.{String}
use mathlib.Core.Path.{◌≡◌, refl}
use mathlib.Core.Bool.{false}
use mathlib.Core.Logic.{inl, inr}
use mathlib.Core.Option.{Option, none, some}
use mathlib.Core.List.{List, [], ◌∷◌}
use native.Mathlib.Omega.{arith}
use crypto_research_agent.Common.Tests.{if◌then◌else◌, Bool-cases}
use crypto_research_agent.Common.Lists.{All}
use crypto_research_agent.Common.Equality.{string_eq, ◌=?◌}

abbrev pub Dict {ℓ} : Type ℓ → Type ℓ
Dict A = List (String × A)

module _ {ℓ} {A : Type ℓ} where
  unfoldable pub lookup : String → Dict A → Option A
  lookup k [] = none
  lookup k ((j, v) ∷ d) = if j =? k then some v else lookup k d

  -- `d.pop(k, None)`
  unfoldable pub discard : String → Dict A → Dict A
  discard k [] = []
  discard k ((j, w) ∷ d) = if j =? k then discard k d else (j, w) ∷ discard k d

  -- `d[k] = v` replaces the value in place, or adds the key at the end; what it discards after it is
  -- nothing where a key stands once.
  unfoldable pub store : String → A → Dict A → Dict A
  unfolding discard
  store k v [] = (k, v) ∷ []
  store k v ((j, w) ∷ d) = if j =? k then (k, v) ∷ discard k d else (j, w) ∷ store k v d

  -- `d.get(k, default)`
  unfoldable pub lookup_or : A → String → Dict A → A
  lookup_or a k [] = a
  lookup_or a k ((j, v) ∷ d) = if j =? k then v else lookup_or a k d

  pub lookup-discard :
      (k j : String) (d : Dict A) → lookup j (discard k d) ≡ (if k =? j then none else lookup j d)
  unfolding lookup discard
  lookup-discard k j [] = ground arith
  lookup-discard k j ((i, w) ∷ d) = ground (
    arith,
    lookup-discard k j d,
    string_eq.beq_iff i k,
    string_eq.beq_iff k j,
    string_eq.beq_iff i j,
  )

  pub lookup-store :
      (k j : String) (v : A) (d : Dict A)
      → lookup j (store k v d) ≡ (if k =? j then some v else lookup j d)
  unfolding lookup store discard
  lookup-store k j v [] = refl
  lookup-store k j v ((i, w) ∷ d) = ground (
    arith,
    lookup-store k j v d,
    lookup-discard k j d,
    string_eq.beq_iff i k,
    string_eq.beq_iff k j,
    string_eq.beq_iff i j,
  )

  pub lookup_or-eq :
      (a : A) (k : String) (d : Dict A) (v : A) → lookup k d ≡ some v → lookup_or a k d ≡ v
  unfolding lookup lookup_or
  lookup_or-eq a k [] v h = cc
  lookup_or-eq a k ((j, w) ∷ d) v h = ground (arith, lookup_or-eq a k d v)

  -- A property of the entries of other keys is kept, and the stored one is added.
  pub All-discard {κ μ} :
      (P : String × A → Type κ) (Q : String × A → Type μ) (k : String) (d : Dict A)
      → ((j : String) (w : A) → (j =? k) ≡ false → P (j, w) → Q (j, w))
      → All P d
      → All Q (discard k d)
  unfolding discard
  All-discard P Q k [] f h = tt
  All-discard P Q k ((j, w) ∷ d) f (p, h) = elim (Bool-cases (j =? k)) [
    | inl same ↦ rw same (All-discard P Q k d f h)
    | inr other ↦ rw other (f j w other p, All-discard P Q k d f h)
  ]

  pub All-store {κ μ} :
      (P : String × A → Type κ) (Q : String × A → Type μ) (k : String) (v : A) (d : Dict A)
      → ((j : String) (w : A) → (j =? k) ≡ false → P (j, w) → Q (j, w))
      → Q (k, v)
      → All P d
      → All Q (store k v d)
  unfolding store
  All-store P Q k v [] f q h = (q, tt)
  All-store P Q k v ((j, w) ∷ d) f q (p, h) = elim (Bool-cases (j =? k)) [
    | inl same ↦ rw same (q, All-discard P Q k d f h)
    | inr other ↦ rw other (f j w other p, All-store P Q k v d f q h)
  ]
