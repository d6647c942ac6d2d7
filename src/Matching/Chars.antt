-- ===== src/Matching/Chars.antt =====
-- The tests on tokens of backend/app/modules/matching/signature.py. A token is of the letters a to z
-- and the digits, as `_TOKEN_RE` finds them.
use Prim.Native.Char.{Char, code}
use Prim.Native.String as S
use imperecta.Base.{
  ℕ, suc, leb, ◌=?◌, String, Bool, true, false, not, ◌&&◌, ◌||◌, List, [], ◌∷◌, elem,
}

abbrev pub is_digit_char : Char → Bool
is_digit_char c = leb 48 (code c) && leb (code c) 57

abbrev pub is_letter_char : Char → Bool
is_letter_char c = leb 97 (code c) && leb (code c) 122

unfoldable pub all_chars : (Char → Bool) → String → Bool
all_chars p S.String.[] = true
all_chars p (S.String.◌∷◌ c s) = p c && all_chars p s

unfoldable pub text_length : String → ℕ
text_length S.String.[] = 0
text_length (S.String.◌∷◌ c s) = suc (text_length s)

unfoldable pub starts_digit : String → Bool
starts_digit S.String.[] = false
starts_digit (S.String.◌∷◌ c s) = is_digit_char c

unfoldable pub is_digits : String → Bool
is_digits S.String.[] = false
is_digits (S.String.◌∷◌ c s) = all_chars is_digit_char (S.String.◌∷◌ c s)

unfoldable pub is_alpha : String → Bool
is_alpha S.String.[] = false
is_alpha (S.String.◌∷◌ c s) = all_chars is_letter_char (S.String.◌∷◌ c s)

unfoldable pub is_mixed : String → Bool
is_mixed token = not (is_alpha token) && not (is_digits token)

-- what follows the digits in front
unfoldable pub after_digits : String → String
after_digits S.String.[] = S.String.[]
after_digits (S.String.◌∷◌ c s) =
    let rest = after_digits s in elim (is_digit_char c) [ true ↦ rest | false ↦ S.String.◌∷◌ c s ]

abbrev pub unit_suffixes : List String
unit_suffixes =
    "gb" ∷ "tb" ∷ "mb" ∷ "kb" ∷ "mm" ∷ "cm" ∷ "km" ∷ "kg" ∷ "mg" ∷ "ml" ∷ "cl" ∷ "dl" ∷ "l" ∷ "g"
    ∷ "m" ∷ "w" ∷ "kw" ∷ "mw" ∷ "v" ∷ "kv" ∷ "mv" ∷ "a" ∷ "ah" ∷ "mah" ∷ "hz" ∷ "ghz" ∷ "mhz"
    ∷ "khz" ∷ "k" ∷ "p" ∷ "mp" ∷ "px" ∷ "dpi" ∷ "in" ∷ "inch" ∷ "cal" ∷ "kcal" ∷ "szt" ∷ "gab"
    ∷ "vnt" ∷ "tk" ∷ "pcs" ∷ "db" ∷ "bar" ∷ "rpm" ∷ "lm" ∷ "lux" ∷ "nm" ∷ "ns" ∷ "ms" ∷ "s" ∷ "min"
    ∷ "h" ∷ "x" ∷ "d" ∷ "fps" ∷ "bit" ∷ "mbps" ∷ "gbps" ∷ "ppm" ∷ "denier" ∷ []

-- `x\d+`, with what follows it given to a test
unfoldable pub x_number : (String → Bool) → String → Bool
x_number next S.String.[] = false
x_number next (S.String.◌∷◌ c s) = code c =? 120 && starts_digit s && next (after_digits s)

-- `_UNIT_RE`
unfoldable pub matches_unit : String → Bool
matches_unit token = starts_digit token && elem (after_digits token) unit_suffixes

-- `_DIMENSIONS_RE`
unfoldable pub matches_dimensions : String → Bool
matches_dimensions token =
    starts_digit token
    && x_number (λ rest. all_chars is_letter_char rest || x_number (all_chars is_letter_char) rest)
        (after_digits token)

unfoldable pub is_unit_token : String → Bool
is_unit_token token = matches_unit token || matches_dimensions token
