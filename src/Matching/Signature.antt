-- ===== src/Matching/Signature.antt =====
-- `extract_match_signature` of backend/app/modules/matching/signature.py: the brand and the model
-- codes in a product's name, from its tokens (`_TOKEN_RE.findall(name.lower())`).  The theorems
-- are in `Codes` and `Strongest`.

pub mod Strongest
pub mod Codes
use Prim.Native.String.{◌++◌ as ◌++ₛ◌}
use imperecta.Base.{
  ℕ, ℤ, negsuc, leb, ltb, ◌=?◌, String, Bool, true, false, not, ◌&&◌, ◌||◌, ◌==◌, Option, none,
  some, List, [], ◌∷◌, ◌++◌, elem, is_empty, keep, lt_text, if◌then◌else◌,
}
use imperecta.Payload.{Float}
use imperecta.Matching.Chars.{
  is_alpha, is_digits, is_mixed, is_unit_token, starts_digit, text_length,
}

abbrev pub stopwords : List String
stopwords = "html" ∷ "bhtml" ∷ "htm" ∷ "php" ∷ "aspx" ∷ "www" ∷ "com" ∷ []

-- a number of two decimals as a `float`
abbrev pub hundredths : String → List ℕ → ℤ → Float
hundredths text digits exponent = record {
  text = text;
  decimal = record { negative = false; digits = digits; exponent = exponent };
  g15 = text;
}

abbrev pub confidence_known_brand : Float
confidence_known_brand = hundredths "0.9" (9 ∷ []) (negsuc 0)

abbrev pub confidence_heuristic_brand : Float
confidence_heuristic_brand = hundredths "0.75" (7 ∷ 5 ∷ []) (negsuc 1)

pub record Brand : Type 0 where
  pub brand : String
  pub confidence : Float

-- the first loop over the tokens, then the second
unfoldable pub first_known : List String → List String → Option String
first_known known_brands [] = none
first_known known_brands (token ∷ tokens) =
    let rest = first_known known_brands tokens in
    if elem token known_brands then some token else rest

unfoldable pub first_word : List String → Option String
first_word [] = none
first_word (token ∷ tokens) =
    let rest = first_word tokens in
    if is_alpha token && leb 3 (text_length token) && not (elem token stopwords)
    then some token
    else rest

unfoldable pub find_brand : List String → List String → Option Brand
find_brand known_brands tokens = elim (first_known known_brands tokens) [
  | some token ↦ some (record { brand = token; confidence = confidence_known_brand })
  | none ↦ elim (first_word tokens) [
    | some token ↦ some (record { brand = token; confidence = confidence_heuristic_brand })
    | none ↦ none
  ]
]

-- `_add_code`
unfoldable pub add_code : String → List String → List String
add_code code codes = if elem code codes then codes else codes ++ code ∷ []

-- a token that can be a code by itself
unfoldable pub is_token_code : String → Bool
is_token_code token =
    (is_mixed token && leb 4 (text_length token))
    || (is_digits token && leb 5 (text_length token) && leb (text_length token) 9)

-- the loop over the tokens: codes, and the units apart
unfoldable pub token_codes : String → List String → List String → List String
token_codes brand [] codes = codes
token_codes brand (token ∷ tokens) codes =
    let skipped = elem token stopwords || token == brand || is_unit_token token in
    token_codes brand tokens
      (if not skipped && is_token_code token then add_code token codes else codes)

unfoldable pub unit_attrs : String → List String → List String
unit_attrs brand tokens =
    keep (λ token. not (elem token stopwords || token == brand) && is_unit_token token) tokens

-- two neighbours that are joined, and their join when it can be a code
unfoldable pub can_join : String → String → String → Bool
can_join brand left right =
    is_alpha left
    && leb 2 (text_length left)
    && not (elem left stopwords)
    && not (left == brand || right == brand)
    && not (is_unit_token right || elem right stopwords)
    && (starts_digit right || is_mixed right)

unfoldable pub is_joined_code : String → Bool
is_joined_code joined = leb 5 (text_length joined) && not (is_unit_token joined)

-- the loop over the neighbours
unfoldable pub joined_codes : String → List String → List String → List String
joined_codes brand [] codes = codes
joined_codes brand (left ∷ []) codes = codes
joined_codes brand (left ∷ right ∷ tokens) codes = joined_codes brand (right ∷ tokens) (
    if can_join brand left right && is_joined_code (left ++ₛ right)
    then add_code (left ++ₛ right) codes
    else codes)

-- `key=lambda c: (not _is_mixed(c), -len(c), c)`
unfoldable pub stronger : String → String → Bool
stronger a b =
    (is_mixed a && not (is_mixed b))
    || (not (not (is_mixed a) && is_mixed b)
        && (ltb (text_length b) (text_length a) || (text_length a =? text_length b && lt_text a b)))

-- `sorted(codes, key=…)[0]`
unfoldable pub strongest_of : String → List String → String
strongest_of best [] = best
strongest_of best (code ∷ codes) = strongest_of (if stronger code best then code else best) codes

pub record Signature : Type 0 where
  pub brand : String
  pub code : String
  pub codes : List String
  pub attrs : List String
  pub confidence : Float

unfoldable pub codes_of : String → List String → List String
codes_of brand tokens = joined_codes brand tokens (token_codes brand tokens [])

unfoldable pub signature_of : Brand → List String → List String → Option Signature
signature_of b tokens [] = none
signature_of b tokens (first ∷ others) = some (record {
  brand = b.brand;
  code = strongest_of first others;
  codes = first ∷ others;
  attrs = unit_attrs b.brand tokens;
  confidence = b.confidence;
})

-- from `if brand is None` on
unfoldable pub with_brand : List String → Option Brand → Option Signature
with_brand tokens none = none
with_brand tokens (some b) = signature_of b tokens (codes_of b.brand tokens)

module _ (find_tokens : String → List String) (known_brands : List String) where
  unfoldable pub extract_match_signature : Option String → Option Signature
  extract_match_signature none = none
  extract_match_signature (some name) =
      let tokens = find_tokens name in
      if name == "" || is_empty tokens
      then none
      else with_brand tokens (find_brand known_brands tokens)
