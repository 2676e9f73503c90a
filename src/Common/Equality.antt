-- ===== src/Common/Equality.antt =====
-- Equality tests as an interface, and membership in a list or a set of values.
use Prim.Native.Nat.{ℕ}
use Prim.Native.String.{String}
use mathlib.Core.Path.{◌≡◌, refl, sym, subst}
use mathlib.Core.Logic.{◌↔◌, inl, inr}
use mathlib.Core.Bool.{Bool, true, false, ◌&&◌, ◌||◌}
use mathlib.Core.List.{List, [], ◌∷◌, ◌++◌}
use native.Mathlib.Omega.{arith}
use text.Mathlib.Text.{◌==◌ as text_eq}
use text.Mathlib.TextEquality.{eq_iff}
use crypto_research_agent.Common.Lists.{All}
use crypto_research_agent.Common.Tests.{if◌then◌else◌, ◌==◌ as num_eq, ==_iff, Bool-cases}

pub record Eq {ℓ} (A : Type ℓ) : Type ℓ where
  pub beq : A → A → Bool
  pub beq_iff : (a b : A) → (beq a b ≡ true) ↔ (a ≡ b)

infix 50 ◌=?◌
abbrev pub ◌=?◌ {ℓ} : {A : Type ℓ} ⦃e : Eq A⦄ → A → A → Bool
◌=?◌ ⦃e⦄ = e.beq

instance abbrev pub nat_eq : Eq ℕ
nat_eq = record { beq = num_eq; beq_iff = ==_iff }

instance abbrev pub string_eq : Eq String
string_eq = record { beq = text_eq; beq_iff = eq_iff }

-- An enumeration's test, from its decidable equality.
abbrev pub test_of {ℓ} : {A : Type ℓ} → Discrete A → A → A → Bool
test_of d a b = elim (d a b) [ yes _ ↦ true | no _ ↦ false ]

pub test_of_iff {ℓ} : {A : Type ℓ} (d : Discrete A) (a b : A) → (test_of d a b ≡ true) ↔ (a ≡ b)
test_of_iff d a b = go (d a b)
  where
    go : (x : Dec (a ≡ b)) → (elim x [ yes _ ↦ true | no _ ↦ false ] ≡ true) ↔ (a ≡ b)
    go (yes p) = (λ _. p, λ _. refl)
    go (no n) = (λ e. cc, λ p. absurd (n p))

abbrev pub eq_of_discrete {ℓ} : {A : Type ℓ} → Discrete A → Eq A
eq_of_discrete d = record { beq = test_of d; beq_iff = test_of_iff d }

module _ {ℓ} {A : Type ℓ} ⦃e : Eq A⦄ where
  -- `a in xs`
  unfoldable pub contains : A → List A → Bool
  contains a [] = false
  contains a (x ∷ xs) = (a =? x) || contains a xs

  -- `if a not in xs: xs.append(a)`
  abbrev pub append_unique : List A → A → List A
  append_unique xs a = if contains a xs then xs else xs ++ a ∷ []

  -- `set(xs).issubset(ys)`
  unfoldable pub is_subset : List A → List A → Bool
  is_subset [] ys = true
  is_subset (x ∷ xs) ys = contains x ys && is_subset xs ys

  -- No value stands twice in the list.
  abbrev pub IsDistinct : List A → Type 0
  IsDistinct [] = Unit
  IsDistinct (x ∷ xs) = (contains x xs ≡ false) × IsDistinct xs

  pub eq_refl : (a : A) → (a =? a) ≡ true
  eq_refl a = (e.beq_iff a a).1 refl

  pub contains-append :
      (a : A) (xs ys : List A) → contains a (xs ++ ys) ≡ (contains a xs || contains a ys)
  unfolding contains
  contains-append a [] ys = refl
  contains-append a (x ∷ xs) ys = ground (arith, contains-append a xs ys)

  pub IsDistinct-snoc :
      (xs : List A) (v : A) → IsDistinct xs → contains v xs ≡ false → IsDistinct (xs ++ v ∷ [])
  unfolding contains
  IsDistinct-snoc [] v d h = (refl, tt)
  IsDistinct-snoc (x ∷ xs) v d h = (
    ground (arith, contains-append x xs (v ∷ []), e.beq_iff x v, e.beq_iff v x),
    IsDistinct-snoc xs v d.1 (ground arith),
  )

  -- Members of the larger set of values are tested as members of the smaller one's superset.
  pub contains-is_subset :
      (a : A) (xs ys : List A)
      → is_subset xs ys ≡ true
      → contains a xs ≡ true
      → contains a ys ≡ true
  unfolding contains is_subset
  contains-is_subset a [] ys h k = cc
  contains-is_subset a (x ∷ xs) ys h k = elim (Bool-cases (a =? x)) [
    | inl same ↦ let p : a ≡ x = (e.beq_iff a x).0 same in rw p (ground arith)
    | inr other ↦ contains-is_subset a xs ys (ground arith) (ground arith)
  ]

  -- What holds of every member holds of a value that is found in the list.
  pub contains-All {κ} :
      (P : A → Type κ) (xs : List A) → All P xs → (a : A) → contains a xs ≡ true → P a
  unfolding contains
  contains-All P [] h a k = cc
  contains-All P (x ∷ xs) h a k = elim (Bool-cases (a =? x)) [
    | inl same ↦ let p : a ≡ x = (e.beq_iff a x).0 same in subst P (sym p) h.0
    | inr other ↦ contains-All P xs h.1 a (ground arith)
  ]
