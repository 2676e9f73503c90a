-- ===== src/Common/Text.antt =====
-- Python's `str` as the native text, with the methods that the program calls on it.
use Prim.Native.Nat.{ℕ, zero, suc, ◌+◌, ◌/◌, ◌%◌}
use Prim.Native.Char.{Char, code}
use Prim.Native.String.{String, ◌++◌}
use text.Mathlib.Text.{starts_with}
use mathlib.Core.Path.{◌≡◌, refl}
use mathlib.Core.Bool.{Bool, true, false, ◌&&◌, ◌||◌}
use mathlib.Core.List.{List, [], ◌∷◌}
use crypto_research_agent.Common.Tests.{ltb, leb, ◌==◌, if◌then◌else◌}

-- `c.isspace()`, over all of Unicode
unfoldable pub is_space : ℕ → Bool
is_space c =
    (leb 9 c && leb c 13)
    || (leb 28 c && leb c 32)
    || (c == 133)
    || (c == 160)
    || (c == 5760)
    || (leb 8192 c && leb c 8202)
    || (c == 8232)
    || (c == 8233)
    || (c == 8239)
    || (c == 8287)
    || (c == 12288)

abbrev pub is_blank : String → Bool
is_blank String.[] = true
is_blank (String.◌∷◌ c s) = false

unfoldable pub lstrip : String → String
unfolding is_space
lstrip String.[] = String.[]
lstrip (String.◌∷◌ c s) = let rest = lstrip s in if is_space (code c) then rest else String.◌∷◌ c s

unfoldable pub rstrip : String → String
unfolding is_space
rstrip String.[] = String.[]
rstrip (String.◌∷◌ c s) =
    let rest = rstrip s in
    if is_blank rest && is_space (code c) then String.[] else String.◌∷◌ c rest

-- `s.strip()`
unfoldable pub strip : String → String
unfolding lstrip rstrip
strip s = rstrip (lstrip s)

-- The letter of the second alphabet at the place of `c` in the first.
unfoldable pub swap_letter : String → String → Char → Char
swap_letter (String.◌∷◌ u us) (String.◌∷◌ l ls) c =
    if code u == code c then l else swap_letter us ls c
swap_letter _ _ c = c

-- `s.lower()`, for texts whose capital letters are those of ASCII
unfoldable pub lower : String → String
unfolding swap_letter
lower String.[] = String.[]
lower (String.◌∷◌ c s) =
    String.◌∷◌ (swap_letter "ABCDEFGHIJKLMNOPQRSTUVWXYZ" "abcdefghijklmnopqrstuvwxyz" c) (lower s)

-- `separator.join(texts)`
unfoldable pub join_with : String → List String → String
join_with separator [] = ""
join_with separator (t ∷ []) = t
join_with separator (t ∷ u ∷ rest) = t ++ (separator ++ join_with separator (u ∷ rest))

-- `token in text`
unfoldable pub occurs_in : String → String → Bool
occurs_in token String.[] = is_blank token
occurs_in token (String.◌∷◌ c s) = starts_with (String.◌∷◌ c s) token || occurs_in token s

-- The text of the letter at a place.
unfoldable pub pick : String → ℕ → String
pick String.[] n = String.[]
pick (String.◌∷◌ c s) zero = String.◌∷◌ c String.[]
pick (String.◌∷◌ c s) (suc n) = pick s n

-- The digit of a number below ten.
unfoldable pub digit : ℕ → String
unfolding pick
digit n = pick "0123456789" n

-- The last digits of a number, as many as the fuel says at most.
unfoldable pub digits_from : ℕ → ℕ → String → String
unfolding digit
digits_from zero n acc = acc
digits_from (suc fuel) n acc =
    let more = digits_from fuel (n / 10) (digit (n % 10) ++ acc) in
    if ltb n 10 then digit n ++ acc else more

-- `str(n)`
unfoldable pub decimal_text : ℕ → String
unfolding digits_from
decimal_text n = digits_from (n + 1) n ""

-- `f"{n:03d}"`
unfoldable pub padded_text : ℕ → String
unfolding decimal_text
padded_text n =
    if ltb n 10
    then "00" ++ decimal_text n
    else if ltb n 100
    then "0" ++ decimal_text n
    else decimal_text n

strip-lower_test : lower (strip "  Binance ") ≡ "binance"
unfolding lower strip
strip-lower_test = refl

padded_text_test : (padded_text 7 ≡ "007") × (padded_text 42 ≡ "042") × (padded_text 1203 ≡ "1203")
unfolding padded_text
padded_text_test = (refl, refl, refl)
