-- ===== src/Evidence/Json.antt =====
-- The parameters of a strategy candidate, in src/crypto_alpha_agent/evidence/models.py: Python values that
-- are frozen when the candidate is built, and thawed when it is written.
pub mod RoundTrip
use crypto_research_agent.Common.{
  String, Bool, true, false, not, Option, none, some, if◌then◌else◌, Outcome, ok, err, value_error,
  ◌>>=◌, ◌>>◌, raise_if,
}
use crypto_research_agent.Common.Int.{ℤ}
use crypto_research_agent.Common.Float.{Float}

-- The values that the functions tell apart. A `frozen` dict is a `_FrozenJSONDict`, `other` any value that
-- is none of these; a key is absent where it is not a text.
mutual
  pub data Value (F : Type 0) : Type 0 where
    null : Value F
    text : String → Value F
    bool : Bool → Value F
    int : ℤ → Value F
    float : F → Value F
    list : Values F → Value F
    tuple : Values F → Value F
    dict : Entries F → Value F
    frozen : Entries F → Value F
    other : Value F

  pub data Values (F : Type 0) : Type 0 where
    nil : Values F
    cons : Value F → Values F → Values F

  pub data Entries (F : Type 0) : Type 0 where
    end : Entries F
    entry : Option String → Value F → Entries F → Entries F

abbrev pub is_text_key : Option String → Bool
is_text_key none = false
is_text_key (some _) = true

module _ {F : Type 0} ⦃f : Float F⦄ where
  open f use {is_finite}

  -- `_freeze_json_safe_value`
  unfoldable mutual
    pub freeze : Value F → Outcome (Value F)
    freeze null = ok null
    freeze (text s) = ok (text s)
    freeze (bool b) = ok (bool b)
    freeze (int n) = ok (int n)
    freeze (float x) =
        if not (is_finite x)
        then err (value_error "parameters must contain only finite floats")
        else ok (float x)
    freeze (list vs) = freeze_items vs >>= λ ws. ok (tuple ws)
    freeze (tuple vs) = err (value_error "parameters must contain only JSON-safe values")
    freeze (dict es) = freeze_entries es >>= λ ws. ok (frozen ws)
    freeze (frozen es) = freeze_entries es >>= λ ws. ok (frozen ws)
    freeze other = err (value_error "parameters must contain only JSON-safe values")

    pub freeze_items : Values F → Outcome (Values F)
    freeze_items nil = ok nil
    freeze_items (cons v vs) = freeze v >>= λ w. freeze_items vs >>= λ ws. ok (cons w ws)

    pub freeze_entries : Entries F → Outcome (Entries F)
    freeze_entries end = ok end
    freeze_entries (entry key v es) =
        raise_if (not (is_text_key key)) (value_error "parameters must use string keys")
        >> freeze v
        >>= λ w. freeze_entries es >>= λ ws. ok (entry key w ws)

-- `_thaw_json_safe_value`
unfoldable mutual
  pub thaw : {F : Type 0} → Value F → Value F
  thaw null = null
  thaw (text s) = text s
  thaw (bool b) = bool b
  thaw (int n) = int n
  thaw (float x) = float x
  thaw (list vs) = list vs
  thaw (tuple vs) = list (thaw_items vs)
  thaw (dict es) = dict (thaw_entries es)
  thaw (frozen es) = dict (thaw_entries es)
  thaw other = other

  pub thaw_items : {F : Type 0} → Values F → Values F
  thaw_items nil = nil
  thaw_items (cons v vs) = cons (thaw v) (thaw_items vs)

  pub thaw_entries : {F : Type 0} → Entries F → Entries F
  thaw_entries end = end
  thaw_entries (entry key v es) = entry key (thaw v) (thaw_entries es)
