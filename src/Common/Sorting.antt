-- ===== src/Common/Sorting.antt =====
-- Python's `sorted(xs, key=...)`, which only asks whether one key is less than another and keeps the
-- order of equal keys.
use Prim.Native.Nat.{suc}
use mathlib.Core.Path.{◌≡◌, refl, ap, ◌∙◌}
use mathlib.Core.Logic.{inl, inr}
use mathlib.Core.Bool.{Bool, true, false}
use mathlib.Core.List.{List, [], ◌∷◌}
use native.Mathlib.Omega.{arith}
use crypto_research_agent.Common.Tests.{if◌then◌else◌, Bool-cases}
use crypto_research_agent.Common.Lists.{All, length, count_if}

module _ {ℓ} {A : Type ℓ} (before : A → A → Bool) where
  abbrev pub insert_by : A → List A → List A
  insert_by x [] = x ∷ []
  insert_by x (y ∷ ys) = let rest = insert_by x ys in if before y x then y ∷ rest else x ∷ y ∷ ys

  abbrev pub sort_by : List A → List A
  sort_by [] = []
  sort_by (x ∷ xs) = insert_by x (sort_by xs)

  -- No value stands after one that it comes before.
  abbrev pub IsSorted : List A → Type 0
  IsSorted [] = Unit
  IsSorted (x ∷ xs) = All (λ y. before y x ≡ false) xs × IsSorted xs

  count_if-insert_by :
      (p : A → Bool) (x : A) (ys : List A) → count_if p (insert_by x ys) ≡ count_if p (x ∷ ys)
  count_if-insert_by p x [] = refl
  count_if-insert_by p x (y ∷ ys) = elim (Bool-cases (before y x)) [
    | inl e ↦ rw e (ground (arith, count_if-insert_by p x ys))
    | inr e ↦ rw e refl
  ]

  -- Sorting a list leaves as many values of each kind as it had.
  pub count_if-sort_by : (p : A → Bool) (xs : List A) → count_if p (sort_by xs) ≡ count_if p xs
  count_if-sort_by p [] = refl
  count_if-sort_by p (x ∷ xs) =
      ground (arith, count_if-insert_by p x (sort_by xs), count_if-sort_by p xs)

  length-insert_by : (x : A) (ys : List A) → length (insert_by x ys) ≡ suc (length ys)
  length-insert_by x [] = refl
  length-insert_by x (y ∷ ys) = elim (Bool-cases (before y x)) [
    | inl e ↦ rw e (ap suc (length-insert_by x ys))
    | inr e ↦ rw e refl
  ]

  pub length-sort_by : (xs : List A) → length (sort_by xs) ≡ length xs
  length-sort_by [] = refl
  length-sort_by (x ∷ xs) = length-insert_by x (sort_by xs) ∙ ap suc (length-sort_by xs)

  All-insert_by {κ} :
      (Q : A → Type κ) (x : A) (ys : List A) → Q x → All Q ys → All Q (insert_by x ys)
  All-insert_by Q x [] q h = (q, tt)
  All-insert_by Q x (y ∷ ys) q h = elim (Bool-cases (before y x)) [
    | inl e ↦ rw e (h.0, All-insert_by Q x ys q h.1)
    | inr e ↦ rw e (q, h)
  ]

  pub All-sort_by {κ} : (Q : A → Type κ) (xs : List A) → All Q xs → All Q (sort_by xs)
  All-sort_by Q [] h = tt
  All-sort_by Q (x ∷ xs) h = All-insert_by Q x (sort_by xs) h.0 (All-sort_by Q xs h.1)

  -- a strict weak order on the values of a kind
  module _ (P : A → Type 0) (asym : (x y : A) → P x → P y → before x y ≡ true → before y x ≡ false)
      (trans : (x y z : A)
        → P x
        → P y
        → P z
        → before y x ≡ false
        → before z y ≡ false
        → before z x ≡ false) where
    below_rest :
        (x y : A) (ys : List A)
        → P x
        → P y
        → All P ys
        → before y x ≡ false
        → All (λ z. before z y ≡ false) ys
        → All (λ z. before z x ≡ false) ys
    below_rest x y [] p q r e h = tt
    below_rest x y (z ∷ zs) p q (r, rs) e (d, h) =
        (trans x y z p q r e d, below_rest x y zs p q rs e h)

    insert_by-IsSorted :
        (x : A) (ys : List A) → P x → All P ys → IsSorted ys → IsSorted (insert_by x ys)
    insert_by-IsSorted x [] p ps h = (tt, tt)
    insert_by-IsSorted x (y ∷ ys) p (q, ps) (below, h) = elim (Bool-cases (before y x)) [
      | inl e ↦ rw e (
        All-insert_by (λ z. before z y ≡ false) x ys (asym y x q p e) below,
        insert_by-IsSorted x ys p ps h,
      )
      | inr e ↦ rw e ((e, below_rest x y ys p q ps e below), (below, h))
    ]

    pub sort_by-IsSorted : (xs : List A) → All P xs → IsSorted (sort_by xs)
    sort_by-IsSorted [] h = tt
    sort_by-IsSorted (x ∷ xs) h =
        insert_by-IsSorted x (sort_by xs) h.0 (All-sort_by P xs h.1) (sort_by-IsSorted xs h.1)
