-- ===== src/Evidence/Json/RoundTrip.antt =====
-- Parameters are written back as they were read, and cannot be changed in between.
use crypto_research_agent.Common.{◌≡◌, refl, ap, Bool, true, false, ◌&&◌, arith, ok}
use crypto_research_agent.Common.Float.{Float}
use crypto_research_agent.Evidence.Json.{
  Value, Values, Entries, null, text, bool, int, float, list, tuple, dict, frozen, other, nil, cons,
  end, entry, is_text_key, freeze, freeze_items, freeze_entries, thaw, thaw_items, thaw_entries,
}

module _ {F : Type 0} ⦃f : Float F⦄ where
  open f use {is_finite}

  -- What JSON can say: lists and dicts with text keys of texts, numbers, truth values and null.
  unfoldable mutual
    pub is_json : Value F → Bool
    is_json null = true
    is_json (text s) = true
    is_json (bool b) = true
    is_json (int n) = true
    is_json (float x) = is_finite x
    is_json (list vs) = is_json_items vs
    is_json (tuple vs) = false
    is_json (dict es) = is_json_entries es
    is_json (frozen es) = false
    is_json other = false

    pub is_json_items : Values F → Bool
    is_json_items nil = true
    is_json_items (cons v vs) = is_json v && is_json_items vs

    pub is_json_entries : Entries F → Bool
    is_json_entries end = true
    is_json_entries (entry key v es) = is_text_key key && is_json v && is_json_entries es

  -- No list and no plain dict is left, at any depth.
  unfoldable mutual
    pub is_immutable : Value F → Bool
    is_immutable null = true
    is_immutable (text s) = true
    is_immutable (bool b) = true
    is_immutable (int n) = true
    is_immutable (float x) = true
    is_immutable (list vs) = false
    is_immutable (tuple vs) = is_immutable_items vs
    is_immutable (dict es) = false
    is_immutable (frozen es) = is_immutable_entries es
    is_immutable other = false

    pub is_immutable_items : Values F → Bool
    is_immutable_items nil = true
    is_immutable_items (cons v vs) = is_immutable v && is_immutable_items vs

    pub is_immutable_entries : Entries F → Bool
    is_immutable_entries end = true
    is_immutable_entries (entry key v es) = is_immutable v && is_immutable_entries es

  mutual
    unfolding freeze thaw is_json is_immutable

    thaw-freeze :
        (v : Value F)
        → is_json v ≡ true
        → (w : Value F) × (freeze v ≡ ok w) × (thaw w ≡ v) × (is_immutable w ≡ true)
    thaw-freeze null h = (null, refl, refl, refl)
    thaw-freeze (text s) h = (text s, refl, refl, refl)
    thaw-freeze (bool b) h = (bool b, refl, refl, refl)
    thaw-freeze (int n) h = (int n, refl, refl, refl)
    thaw-freeze (float x) h = (float x, ground arith, refl, refl)
    thaw-freeze (list vs) h =
        let (ws, e, back, fixed) = thaw_items-freeze_items vs h in
        (tuple ws, rw e refl, ap list back, fixed)
    thaw-freeze (tuple vs) h = ground arith
    thaw-freeze (dict es) h =
        let (ws, e, back, fixed) = thaw_entries-freeze_entries es h in
        (frozen ws, rw e refl, ap dict back, fixed)
    thaw-freeze (frozen es) h = ground arith
    thaw-freeze other h = ground arith

    thaw_items-freeze_items :
        (vs : Values F)
        → is_json_items vs ≡ true
        → (ws : Values F) × (freeze_items vs ≡ ok ws)
          × (thaw_items ws ≡ vs)
          × (is_immutable_items ws ≡ true)
    thaw_items-freeze_items nil h = (nil, refl, refl, refl)
    thaw_items-freeze_items (cons v vs) h =
        let (w, e, back, fixed) = thaw-freeze v (ground arith) in
        let (ws, e1, back1, fixed1) = thaw_items-freeze_items vs (ground arith) in
        (cons w ws, rw (e, e1) refl, rw (back, back1) refl, rw (fixed, fixed1) refl)

    thaw_entries-freeze_entries :
        (es : Entries F)
        → is_json_entries es ≡ true
        → (ws : Entries F) × (freeze_entries es ≡ ok ws)
          × (thaw_entries ws ≡ es)
          × (is_immutable_entries ws ≡ true)
    thaw_entries-freeze_entries end h = (end, refl, refl, refl)
    thaw_entries-freeze_entries (entry key v es) h =
        let (w, e, back, fixed) = thaw-freeze v (ground arith) in
        let (ws, e1, back1, fixed1) = thaw_entries-freeze_entries es (ground arith) in
        let named : is_text_key key ≡ true = ground arith in
        (entry key w ws, rw (named, e, e1) refl, rw (back, back1) refl, rw (fixed, fixed1) refl)

  -- A JSON value is frozen without an error to one that is immutable at every depth, and thawing that
  -- gives the value back.
  pub thaw-freeze_json :
      (v : Value F)
      → is_json v ≡ true
      → (w : Value F) × (freeze v ≡ ok w) × (thaw w ≡ v) × (is_immutable w ≡ true)
  thaw-freeze_json v h = thaw-freeze v h
