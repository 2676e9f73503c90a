-- ===== src/Common/Float.antt =====
-- Python's `float`, as an interface: the operations that the program uses, and the facts of IEEE 754
-- doubles that the theorems rely on. Nothing is assumed of a result that overflows.
use Prim.Native.Nat.{ℕ, ◌<◌, ◌≤◌}
use mathlib.Core.Path.{◌≡◌}
use mathlib.Core.Bool.{Bool, true, not, ◌&&◌}
use mathlib.Core.Logic.{◌⊎◌}
use mathlib.Core.List.{List}
use native.Mathlib.Omega.{arith}
use crypto_research_agent.Common.Tests.{if◌then◌else◌}
use crypto_research_agent.Common.Int.{ℤ}
pub mod Fixed

pub record Float (F : Type 0) : Type 0 where
  pub nought : F
  -- `decimal m k` is the literal m / 10 ^ k
  pub decimal : ℕ → ℕ → F
  -- `math.isfinite`
  pub is_finite : F → Bool
  pub le : F → F → Bool
  pub lt : F → F → Bool
  -- `x == y`
  pub same : F → F → Bool
  pub add : F → F → F
  pub sub : F → F → F
  pub mul : F → F → F
  pub div : F → F → F
  pub neg : F → F
  pub abs : F → F
  -- the quotient of two ints
  pub ratio : ℕ → ℕ → F
  -- the builtin `sum`, which compensates its rounding errors
  pub total : List F → F
  -- `round(x)` and `round(x, n)`
  pub round_int : F → ℤ
  pub round_to : F → ℕ → F

infix 4 ◌≼◌ ◌≺◌
abbrev pub ◌≼◌ : {F : Type 0} ⦃f : Float F⦄ → F → F → Type 0
◌≼◌ ⦃f⦄ x y = f.le x y ≡ true

abbrev pub ◌≺◌ : {F : Type 0} ⦃f : Float F⦄ → F → F → Type 0
◌≺◌ ⦃f⦄ x y = f.lt x y ≡ true

abbrev pub IsFinite : {F : Type 0} ⦃f : Float F⦄ → F → Type 0
IsFinite ⦃f⦄ x = f.is_finite x ≡ true

module _ {F : Type 0} ⦃f : Float F⦄ where
  open f use {nought, le, lt, same, is_finite}

  -- `max(x, y)` and `min(x, y)` keep the first value unless the second is beyond it.
  unfoldable pub larger : F → F → F
  larger x y = if lt x y then y else x

  unfoldable pub smaller : F → F → F
  smaller x y = if lt y x then y else x

  -- pydantic's `ge=0, allow_inf_nan=False` and `gt=0, allow_inf_nan=False`
  abbrev pub is_nonneg : F → Bool
  is_nonneg x = is_finite x && le nought x

  abbrev pub is_positive : F → Bool
  is_positive x = is_finite x && lt nought x

-- The order is total away from NaN, which is the value that is not at most itself.
pub record IsOrdered (F : Type 0) ⦃f : Float F⦄ : Type 0 where
  pub nought_finite : IsFinite f.nought
  pub neg_finite : (x : F) → IsFinite x → IsFinite (f.neg x)
  pub decimal_finite : (m k : ℕ) → m ≤ 1000 → k ≤ 22 → IsFinite (f.decimal m k)
  pub le_of_finite : (x : F) → IsFinite x → x ≼ x
  pub le_trans : (x y z : F) → x ≼ y → y ≼ z → x ≼ z
  pub le_total_number : (x y : F) → x ≼ x → y ≼ y → (x ≼ y) ⊎ (y ≼ x)
  pub lt_number : (x y : F) → x ≼ x → y ≼ y → f.lt x y ≡ not (f.le y x)
  pub same_number : (x y : F) → x ≼ x → y ≼ y → f.same x y ≡ (f.le x y && f.le y x)
  pub abs_finite : (x : F) → IsFinite x → IsFinite (f.abs x)
  pub abs_number : (x : F) → x ≺ f.nought → f.abs x ≼ f.abs x

module _ {F : Type 0} ⦃f : Float F⦄ (laws : IsOrdered F) where
  pub le_total : (x y : F) → IsFinite x → IsFinite y → (x ≼ y) ⊎ (y ≼ x)
  le_total x y p q = laws.le_total_number x y (laws.le_of_finite x p) (laws.le_of_finite y q)

  pub lt-eq-not-le : (x y : F) → IsFinite x → IsFinite y → f.lt x y ≡ not (f.le y x)
  lt-eq-not-le x y p q = laws.lt_number x y (laws.le_of_finite x p) (laws.le_of_finite y q)

  -- The larger of two numbers is a number, and bounds both.
  pub le-larger : (x y : F) → x ≼ x → y ≼ y → (x ≼ larger x y) × (y ≼ larger x y)
  unfolding larger
  le-larger x y p q = ground (arith, laws.lt_number x y p q, laws.le_total_number x y p q)

-- Rounding is monotone: a result lies on the side of its operands on which the exact one does.
pub record IsRounding (F : Type 0) ⦃f : Float F⦄ : Type 0 where
  pub sub_nonneg : (x y : F) → IsFinite x → IsFinite y → y ≼ x → f.nought ≼ f.sub x y
  pub sub_pos : (x y : F) → IsFinite x → IsFinite y → y ≺ x → f.nought ≺ f.sub x y
  pub add_nonneg : (x y : F) → f.nought ≼ x → f.nought ≼ y → f.nought ≼ f.add x y
  pub add_pos : (x y : F) → f.nought ≼ x → f.nought ≺ y → f.nought ≺ f.add x y
  pub mul_nonneg :
      (x y : F) → IsFinite x → IsFinite y → f.nought ≼ x → f.nought ≼ y → f.nought ≼ f.mul x y
  pub sub_le : (x y : F) → IsFinite x → f.nought ≼ y → f.sub x y ≼ x
  pub sub_finite : (x y : F) → IsFinite x → f.nought ≼ y → y ≼ x → IsFinite (f.sub x y)
  pub ratio_self : (n : ℕ) → 0 < n → f.ratio n n ≡ f.decimal 1 0
