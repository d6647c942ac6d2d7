-- ===== src/Matching/Signature/Codes.antt =====
-- What a signature holds.
use Prim.Native.String.{◌++◌ as ◌++ₛ◌}
use imperecta.Base.{
  or_else, ◌≤◌, String, ◌≡◌, refl, sym, ap, ◌∙◌, true, false, not, ◌&&◌, ◌||◌, ◌==◌, eq_iff,
  eq_refl, Option, none, some, List, [], ◌∷◌, ◌++◌, elem, is_empty, All, all, Option-cases, inl,
  inr, if_rule, arith, leb, if◌then◌else◌, Bool-cases, Bool,
}
use mathlib.Core.Path.{subst}
use imperecta.Matching.Chars.{is_alpha, is_unit_token, text_length}
use imperecta.Payload.{Float}
use imperecta.Matching.Signature.{
  confidence_known_brand, confidence_heuristic_brand, stopwords, Brand, first_known, first_word,
  find_brand, add_code, is_token_code, token_codes, can_join, is_joined_code, joined_codes,
  codes_of, stronger, strongest_of, Signature, signature_of, with_brand, extract_match_signature,
}
use imperecta.Matching.Signature.Strongest.{strongest_of-member, strongest_of-least}

-- A code is no unit, and at least four characters long.
pub record IsCode (code : String) : Type 0 where
  pub no_unit : is_unit_token code ≡ false
  pub long : 4 ≤ text_length code

abbrev pub IsDistinct : List String → Type 0
IsDistinct [] = Unit
IsDistinct (x ∷ xs) = (elem x xs ≡ false) × IsDistinct xs

-- codes that are good and each there once
pub record AreCodes (codes : List String) : Type 0 where
  pub good : All IsCode codes
  pub distinct : IsDistinct codes

elem-end : (x y : String) (xs : List String) → elem x (xs ++ y ∷ []) ≡ (elem x xs || y == x)
elem-end x y [] = ground arith
elem-end x y (z ∷ xs) = let rest = elem-end x y xs in ground arith

distinct-end :
    (x : String) (xs : List String) → elem x xs ≡ false → IsDistinct xs → IsDistinct (xs ++ x ∷ [])
distinct-end x [] h d = (refl, tt)
distinct-end x (y ∷ xs) h d =
    let other = eq_iff x y in
    let back = eq_iff y x in
    let last = elem-end y x xs in
    let first = d.0 in (ground arith, distinct-end x xs (ground arith) d.1)

good-end : (x : String) (xs : List String) → IsCode x → All IsCode xs → All IsCode (xs ++ x ∷ [])
good-end x [] h g = (h, tt)
good-end x (y ∷ xs) h g = (g.0, good-end x xs h g.1)

add_code-AreCodes :
    (code : String) (codes : List String)
    → IsCode code
    → AreCodes codes
    → AreCodes (add_code code codes)
unfolding add_code
add_code-AreCodes code codes h c =
    if_rule AreCodes (elem code codes) _ _ (λ _. c)
      λ fresh. record {
        good = good-end code codes h c.good;
        distinct = distinct-end code codes fresh c.distinct;
      }

usable_token :
    (token : String) → is_unit_token token ≡ false → is_token_code token ≡ true → IsCode token
unfolding is_token_code
usable_token token u h = record { no_unit = u; long = ground arith }

usable_join : (joined : String) → is_joined_code joined ≡ true → IsCode joined
unfolding is_joined_code
usable_join joined h = record { no_unit = ground arith; long = ground arith }

token_codes-AreCodes :
    (brand : String) (tokens codes : List String)
    → AreCodes codes
    → AreCodes (token_codes brand tokens codes)
unfolding token_codes
token_codes-AreCodes brand [] codes c = c
token_codes-AreCodes brand (token ∷ tokens) codes c = token_codes-AreCodes brand tokens _ (
    if_rule AreCodes
      (not (elem token stopwords || token == brand || is_unit_token token) && is_token_code token) _
      _ (λ h. add_code-AreCodes token codes (usable_token token (ground arith) (ground arith)) c)
      λ _. c)

joined_codes-AreCodes :
    (brand : String) (tokens codes : List String)
    → AreCodes codes
    → AreCodes (joined_codes brand tokens codes)
unfolding joined_codes
joined_codes-AreCodes brand [] codes c = c
joined_codes-AreCodes brand (left ∷ []) codes c = c
joined_codes-AreCodes brand (left ∷ right ∷ tokens) codes c =
    joined_codes-AreCodes brand (right ∷ tokens) _ (
      if_rule AreCodes (can_join brand left right && is_joined_code (left ++ₛ right)) _ _
        (λ h.
          add_code-AreCodes (left ++ₛ right) codes (usable_join (left ++ₛ right) (ground arith)) c)
        λ _. c)

-- the first token that passes a test: it passes, and no token before it does
pub record IsFirst (p : String → Bool) (tokens : List String) (token : String) : Type 0 where
  pub before : List String
  pub after : List String
  pub splits : tokens ≡ before ++ token ∷ after
  pub passes : p token ≡ true
  pub none_before : all (λ other. not (p other)) before ≡ true

-- a token of letters, of three at least, that is no stop word
abbrev pub is_word : String → Bool
is_word token = is_alpha token && leb 3 (text_length token) && not (elem token stopwords)

-- The brand is the first token that is a known brand, or, when none is, the first that is a word.
pub data IsBrand (known_brands tokens : List String) (brand : String) (confidence : Float)
    : Type 0 where
  known :
      IsFirst (λ token. elem token known_brands) tokens brand
      → confidence ≡ confidence_known_brand
      → IsBrand known_brands tokens brand confidence
  word :
      IsFirst is_word tokens brand
      → all (λ token. not (elem token known_brands)) tokens ≡ true
      → confidence ≡ confidence_heuristic_brand
      → IsBrand known_brands tokens brand confidence

-- What a signature is: the brand stands among the tokens, the codes are good and distinct, and the
-- code is one of them to which none is preferred.
pub record IsSignature (known_brands tokens : List String) (s : Signature) : Type 0 where
  pub branded : IsBrand known_brands tokens s.brand s.confidence
  pub codes_good : All IsCode s.codes
  pub codes_distinct : IsDistinct s.codes
  pub code_listed : elem s.code s.codes ≡ true
  pub code_strongest : All (λ c. stronger c s.code ≡ false) s.codes

some_of {ℓ} : {A : Type ℓ} {o : Option A} {a b : A} → o ≡ some a → o ≡ some b → a ≡ b
some_of {a = a} e h = ap (λ o. or_else o a) (sym e ∙ h)

here-IsFirst :
    (p : String → Bool) (token : String) (tokens : List String)
    → p token ≡ true
    → IsFirst p (token ∷ tokens) token
here-IsFirst p token tokens h = record {
  before = [];
  after = tokens;
  splits = refl;
  passes = h;
  none_before = refl;
}

later-IsFirst :
    (p : String → Bool) (token : String) (tokens : List String) (found : String)
    → p token ≡ false
    → IsFirst p tokens found
    → IsFirst p (token ∷ tokens) found
later-IsFirst p token tokens found h f = record {
  before = token ∷ f.before;
  after = f.after;
  splits = ap (λ ts. token ∷ ts) f.splits;
  passes = f.passes;
  none_before = let rest = f.none_before in ground arith;
}

choice-IsFirst :
    (p : String → Bool) (token : String) (tokens : List String) (rest : Option String)
    (found : String)
    → ((rest ≡ some found) → IsFirst p tokens found)
    → (if p token then some token else rest) ≡ some found
    → IsFirst p (token ∷ tokens) found
choice-IsFirst p token tokens rest found later h = elim (Bool-cases (p token)) [
  | inl e ↦
      let same : token ≡ found = some_of refl (rw e at h) in
      subst (IsFirst p (token ∷ tokens)) same (here-IsFirst p token tokens e)
  | inr e ↦ later-IsFirst p token tokens found e (later (rw e at h))
]

first_known-some :
    (known_brands tokens : List String) (brand : String)
    → first_known known_brands tokens ≡ some brand
    → IsFirst (λ token. elem token known_brands) tokens brand
unfolding first_known
first_known-some known_brands [] brand e = absurd (cc)
first_known-some known_brands (token ∷ tokens) brand e =
    choice-IsFirst (λ t. elem t known_brands) token tokens (first_known known_brands tokens) brand
      (first_known-some known_brands tokens brand) e

first_known-none :
    (known_brands tokens : List String)
    → first_known known_brands tokens ≡ none
    → all (λ token. not (elem token known_brands)) tokens ≡ true
unfolding first_known
first_known-none known_brands [] e = refl
first_known-none known_brands (token ∷ tokens) e =
    let rest = first_known-none known_brands tokens in ground arith

first_word-some :
    (tokens : List String) (brand : String)
    → first_word tokens ≡ some brand
    → IsFirst is_word tokens brand
unfolding first_word
first_word-some [] brand e = absurd (cc)
first_word-some (token ∷ tokens) brand e =
    choice-IsFirst is_word token tokens (first_word tokens) brand (first_word-some tokens brand) e

never : {X : Type 0} {s : Signature} → none ≡ some s → X
never h = absurd (cc)

find_brand-some :
    (known_brands tokens : List String) (b : Brand)
    → find_brand known_brands tokens ≡ some b
    → IsBrand known_brands tokens b.brand b.confidence
unfolding find_brand
find_brand-some known_brands tokens b h = elim (Option-cases (first_known known_brands tokens)) [
  | inr (token, e) ↦
      let first = first_known-some known_brands tokens token e in
      let same : record { brand = token; confidence = confidence_known_brand } ≡ b =
        some_of (rw (e, find_brand) refl) h in
      subst (λ (x : Brand). IsBrand known_brands tokens x.brand x.confidence) same
        (known first refl)
  | inl none_known ↦ elim (Option-cases (first_word tokens)) [
    | inr (token, e) ↦
        let first = first_word-some tokens token e in
        let same : record { brand = token; confidence = confidence_heuristic_brand } ≡ b =
          some_of (rw (none_known, e, find_brand) refl) h in
        subst (λ (x : Brand). IsBrand known_brands tokens x.brand x.confidence) same
          (word first (first_known-none known_brands tokens none_known) refl)
    | inl e ↦
        let absent : find_brand known_brands tokens ≡ none = rw (none_known, e, find_brand) refl in
        absurd (cc)
  ]
]

All-elem :
    (P : String → Type 0) (xs : List String) → ((x : String) → elem x xs ≡ true → P x) → All P xs
All-elem P [] h = tt
All-elem P (x ∷ xs) h = (h x (rw (eq_refl x) refl), All-elem P xs λ y found. h y (ground arith))

signature_of-IsSignature :
    (known_brands tokens : List String) (b : Brand) (codes : List String) (s : Signature)
    → IsBrand known_brands tokens b.brand b.confidence
    → AreCodes codes
    → signature_of b tokens codes ≡ some s
    → IsSignature known_brands tokens s
unfolding signature_of
signature_of-IsSignature known_brands tokens b [] s branded c h = absurd (cc)
signature_of-IsSignature known_brands tokens b (first ∷ others) s branded c h =
    subst (IsSignature known_brands tokens) (some_of refl h) (record {
      branded = branded;
      codes_good = c.good;
      codes_distinct = c.distinct;
      code_listed = strongest_of-member first others;
      code_strongest =
          All-elem (λ x. stronger x (strongest_of first others) ≡ false) (first ∷ others)
            (strongest_of-least first others);
    })

codes_of-AreCodes : (brand : String) (tokens : List String) → AreCodes (codes_of brand tokens)
unfolding codes_of
codes_of-AreCodes brand tokens =
    joined_codes-AreCodes brand tokens _
      (token_codes-AreCodes brand tokens [] (record { good = tt; distinct = tt }))

with_brand-IsSignature :
    (known_brands tokens : List String) (s : Signature) (o : Option Brand)
    → find_brand known_brands tokens ≡ o
    → with_brand tokens o ≡ some s
    → IsSignature known_brands tokens s
unfolding with_brand
with_brand-IsSignature known_brands tokens s none e h = absurd (cc)
with_brand-IsSignature known_brands tokens s (some b) e h =
    signature_of-IsSignature known_brands tokens b (codes_of b.brand tokens) s
      (find_brand-some known_brands tokens b e) (codes_of-AreCodes b.brand tokens) h

-- A signature that is found has as its brand the first token of the name that is a known brand
-- or, when there is none, the first that is a word of three letters or more and no stop word; its
-- codes are distinct, are no units and have four characters at least; and its code is one of them
-- to which none is preferred.
pub extract_match_signature-IsSignature :
    (find_tokens : String → List String) (known_brands : List String) (name : String)
    (s : Signature)
    → extract_match_signature find_tokens known_brands (some name) ≡ some s
    → IsSignature known_brands (find_tokens name) s
unfolding extract_match_signature
extract_match_signature-IsSignature find_tokens known_brands name s =
    let tokens = find_tokens name in
    if_rule (λ o. o ≡ some s → IsSignature known_brands tokens s) (name == "" || is_empty tokens)
      none (with_brand tokens (find_brand known_brands tokens)) (λ _ h. never h)
      λ _. with_brand-IsSignature known_brands tokens s (find_brand known_brands tokens) refl
