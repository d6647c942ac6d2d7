-- ===== src/Matching/Titles.antt =====
-- `normalize_title_tokens` and `title_similarity` of backend/app/modules/matching/signature.py, from
-- the tokens of a title (`_TITLE_TOKEN_RE.findall(title.lower())`). A token is of the letters a to z,
-- the digits and full stops. A score is a fraction. The theorems are in `Score`.
pub mod Score
use Prim.Native.Char.{Char, code}
use Prim.Native.String as S
use Prim.Native.String.{◌++◌ as ◌++ₛ◌}
use imperecta.Base.{
  ℕ, ◌+◌, ◌*◌, zero, suc, leb, ◌=?◌, String, Bool, true, false, not, ◌&&◌, ◌||◌, ◌==◌, Option, none,
  some, List, [], ◌∷◌, elem, is_empty, keep, length, sorted, if◌then◌else◌,
}
use imperecta.Matching.Chars.{is_digit_char, all_chars}

abbrev pub glue_units : List String
glue_units =
    "gb" ∷ "tb" ∷ "mb" ∷ "kb" ∷ "mm" ∷ "cm" ∷ "m" ∷ "km" ∷ "kg" ∷ "g" ∷ "mg" ∷ "l" ∷ "ml" ∷ "cl"
    ∷ "dl" ∷ "w" ∷ "kw" ∷ "mw" ∷ "v" ∷ "mv" ∷ "kv" ∷ "a" ∷ "ah" ∷ "mah" ∷ "hz" ∷ "khz" ∷ "mhz"
    ∷ "ghz" ∷ "k" ∷ "p" ∷ "mp" ∷ "px" ∷ "in" ∷ "inch" ∷ "lm" ∷ "nm" ∷ "bar" ∷ "rpm" ∷ "pcs" ∷ "szt"
    ∷ []

abbrev pub title_stopwords : List String
title_stopwords =
    "the" ∷ "a" ∷ "an" ∷ "and" ∷ "or" ∷ "with" ∷ "for" ∷ "of" ∷ "in" ∷ "to" ∷ "on" ∷ "by" ∷ []

abbrev pub is_stop_char : Char → Bool
is_stop_char c = code c =? 46

-- `token.lstrip(".")`, `token.rstrip(".")`
unfoldable pub strip_left : String → String
strip_left S.String.[] = S.String.[]
strip_left (S.String.◌∷◌ c s) =
    let rest = strip_left s in elim (is_stop_char c) [ true ↦ rest | false ↦ S.String.◌∷◌ c s ]

unfoldable pub strip_right : String → String
strip_right S.String.[] = S.String.[]
strip_right (S.String.◌∷◌ c s) =
    let rest = strip_right s in
    if all_chars is_stop_char (S.String.◌∷◌ c s) then S.String.[] else S.String.◌∷◌ c rest

unfoldable pub any_char : (Char → Bool) → String → Bool
any_char p S.String.[] = false
any_char p (S.String.◌∷◌ c s) = p c || any_char p s

abbrev pub is_number_char : Char → Bool
is_number_char c = is_digit_char c || is_stop_char c

unfoldable pub is_number_token : String → Bool
is_number_token t =
    all_chars is_number_char t
    && any_char is_digit_char t
    && strip_left t == t
    && strip_right t == t

-- the first generator, and `if t`
unfoldable pub raw_tokens : List String → List String
raw_tokens [] = []
raw_tokens (m ∷ found) =
    let rest = raw_tokens found in
    let t = strip_right (strip_left m) in if t == "" then rest else t ∷ rest

-- the loop that glues a number to the unit behind it
unfoldable pub glue : List String → List String
glue [] = []
glue (a ∷ []) = a ∷ []
glue (a ∷ b ∷ raw) =
    let after_pair = glue raw in
    let after_one = glue (b ∷ raw) in
    if is_number_token a && elem b glue_units then (a ++ₛ b) ∷ after_pair else a ∷ after_one

-- `{t for t in glued}`, each element once
unfoldable pub distinct : List String → List String
distinct [] = []
distinct (t ∷ ts) = let rest = distinct ts in if elem t rest then rest else t ∷ rest

unfoldable pub normalize_title_tokens : List String → List String
normalize_title_tokens found =
    sorted (distinct (keep (λ t. not (elem t title_stopwords)) (glue (raw_tokens found))))

pub record UnitAttr : Type 0 where
  pub value : String
  pub suffix : String

-- the number in front of a token, and what follows it
unfoldable pub number_prefix : String → String
number_prefix S.String.[] = S.String.[]
number_prefix (S.String.◌∷◌ c s) =
    let rest = number_prefix s in
    elim (is_number_char c) [ true ↦ S.String.◌∷◌ c rest | false ↦ S.String.[] ]

unfoldable pub number_rest : String → String
number_rest S.String.[] = S.String.[]
number_rest (S.String.◌∷◌ c s) =
    let rest = number_rest s in elim (is_number_char c) [ true ↦ rest | false ↦ S.String.◌∷◌ c s ]

-- `_unit_attr`
unfoldable pub unit_attr : String → Option UnitAttr
unit_attr token =
    let value = number_prefix token in
    let suffix = number_rest token in
    if value == "" || suffix == ""
    then none
    else if elem suffix glue_units && any_char is_digit_char value
    then some (record { value = value; suffix = suffix })
    else none

-- the same unit with another value
unfoldable pub attrs_conflict : Option UnitAttr → Option UnitAttr → Bool
attrs_conflict none u = false
attrs_conflict (some a) none = false
attrs_conflict (some a) (some b) = a.suffix == b.suffix && not (a.value == b.value)

-- the two loops
unfoldable pub conflicts_with : String → List String → Bool
conflicts_with ta [] = false
conflicts_with ta (tb ∷ b) = attrs_conflict (unit_attr ta) (unit_attr tb) || conflicts_with ta b

unfoldable pub any_conflict : List String → List String → Bool
any_conflict [] b = false
any_conflict (ta ∷ a) b = conflicts_with ta b || any_conflict a b

pub record Fraction : Type 0 where
  pub numerator : ℕ
  pub denominator : ℕ

abbrev pub no_score : Fraction
no_score = record { numerator = 0; denominator = 1 }

-- `len(sa & sb)` and `len(sa | sb)`, for lists of distinct tokens
unfoldable pub shared : List String → List String → ℕ
shared [] b = 0
shared (t ∷ a) b = let rest = shared a b in if elem t b then suc rest else rest

unfoldable pub unshared : List String → List String → ℕ
unshared [] b = 0
unshared (t ∷ a) b = let rest = unshared a b in if elem t b then rest else suc rest

unfoldable pub jaccard : List String → List String → Fraction
jaccard sa sb = record { numerator = shared sa sb; denominator = unshared sa sb + length sb }

unfoldable pub title_similarity : List String → List String → Fraction
title_similarity a b =
    if is_empty a || is_empty b
    then no_score
    else if any_conflict a b
    then no_score
    else jaccard (distinct a) (distinct b)

-- `score >= TITLE_SIM_THRESHOLD`, which is 0.80
unfoldable pub is_similar : Fraction → Bool
is_similar score = leb (4 * score.denominator) (5 * score.numerator)
