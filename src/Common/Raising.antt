-- ===== src/Common/Raising.antt =====
-- What a call of the Python code ends with: a value, or an exception that it raises.
use Prim.Native.String.{String}
use mathlib.Core.Path.{◌≡◌, refl}
use mathlib.Core.Logic.{◌⊎◌, inl, inr}
use mathlib.Core.Bool.{Bool, true, false}
use mathlib.Core.List.{List, [], ◌∷◌}
use crypto_research_agent.Common.Tests.{if◌then◌else◌}

-- `value_error` carries the message; `validation_error` names the pydantic model that refused its
-- fields.
pub data Error : Type 0 where
  value_error : String → Error
  validation_error : String → Error
  permission_error : String → Error
  zero_division_error : Error
  index_error : Error
  overflow_error : Error
  runtime_error : String → Error

pub data Outcome {ℓ} (A : Type ℓ) : Type ℓ where
  ok : A → Outcome A
  err : Error → Outcome A

infixl 5 ◌>>=◌ ◌>>◌
abbrev pub ◌>>=◌ {ℓ κ} : {A : Type ℓ} {B : Type κ} → Outcome A → (A → Outcome B) → Outcome B
ok a >>= f = f a
err e >>= f = err e

abbrev pub ◌>>◌ {ℓ} : {B : Type ℓ} → Outcome (Unit {0}) → Outcome B → Outcome B
m >> k = m >>= λ _. k

-- `if c: raise e`
abbrev pub raise_if : Bool → Error → Outcome (Unit {0})
raise_if true e = err e
raise_if false e = ok tt

pub Outcome-cases {ℓ} :
    {A : Type ℓ} (o : Outcome A) → ((a : A) × (o ≡ ok a)) ⊎ ((e : Error) × (o ≡ err e))
Outcome-cases (ok a) = inl (a, refl)
Outcome-cases (err e) = inr (e, refl)

abbrev pub is_ok {ℓ} : {A : Type ℓ} → Outcome A → Bool
is_ok (ok _) = true
is_ok (err _) = false

-- The parts of a chain that did not raise.
pub bind-ok {ℓ κ} :
    {A : Type ℓ} {B : Type κ} (m : Outcome A) (f : A → Outcome B) {b : B}
    → (m >>= f) ≡ ok b
    → (a : A) × (m ≡ ok a) × (f a ≡ ok b)
bind-ok (ok a) f h = (a, refl, h)
bind-ok (err e) f h = cc

pub raise_if-ok : (c : Bool) (e : Error) {u : Unit {0}} → raise_if c e ≡ ok u → c ≡ false
raise_if-ok true e h = cc
raise_if-ok false e h = refl

-- the results of a function that may raise, over a list from the left
abbrev pub traverse {ℓ κ} : {A : Type ℓ} {B : Type κ} → (A → Outcome B) → List A → Outcome (List B)
traverse f [] = ok []
traverse f (x ∷ xs) = let rest = traverse f xs in f x >>= λ y. rest >>= λ ys. ok (y ∷ ys)

pub ok_injective {ℓ} : {A : Type ℓ} {a b : A} → ok a ≡ ok b → a ≡ b
ok_injective h = cc

-- A test before the result did not raise, and one that guards it was passed.
pub if_err-ok {ℓ} :
    {A : Type ℓ} (c : Bool) (e : Error) (m : Outcome A) {a : A}
    → (if c then err e else m) ≡ ok a
    → (c ≡ false) × (m ≡ ok a)
if_err-ok true e m h = cc
if_err-ok false e m h = (refl, h)

pub if_ok-err {ℓ} :
    {A : Type ℓ} (c : Bool) (e : Error) (b : A) {a : A}
    → (if c then ok b else err e) ≡ ok a
    → (c ≡ true) × (b ≡ a)
if_ok-err true e b h = (refl, ok_injective h)
if_ok-err false e b h = cc
