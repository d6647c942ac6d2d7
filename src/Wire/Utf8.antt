-- ===== src/Wire/Utf8.antt =====
-- `str.encode("utf-8")` of Python.
use Prim.Native.Char.{code}
use Prim.Native.String as S
use text.Mathlib.TextEquality.{Char-path}
use mathlib.Core.Path.{ap₂}
use imperecta.Base.{
  ℕ, ◌+◌, ◌/◌, ◌%◌, String, ◌≡◌, refl, List, [], ◌∷◌, ◌++◌, arith, ltb, if◌then◌else◌,
}

abbrev pub Bytes : Type 0
Bytes = List ℕ

-- the bytes of one code point
utf8_char : ℕ → Bytes
utf8_char c =
    if ltb c 128
    then c ∷ []
    else if ltb c 2048
    then (192 + c / 64) ∷ (128 + c % 64) ∷ []
    else if ltb c 65536
    then (224 + c / 4096) ∷ (128 + c / 64 % 64) ∷ (128 + c % 64) ∷ []
    else (240 + c / 262144) ∷ (128 + c / 4096 % 64) ∷ (128 + c / 64 % 64) ∷ (128 + c % 64) ∷ []

unfoldable pub utf8 : String → Bytes
unfolding utf8_char
utf8 S.String.[] = []
utf8 (S.String.◌∷◌ c s) = utf8_char (code c) ++ utf8 s

utf8_char-cancel :
    (c d : ℕ) (xs ys : Bytes) → utf8_char c ++ xs ≡ utf8_char d ++ ys → (c ≡ d) × (xs ≡ ys)
unfolding utf8_char
utf8_char-cancel c d xs ys h = ground arith

-- Two texts with the same bytes are the same text.
pub utf8-injective : (s t : String) → utf8 s ≡ utf8 t → s ≡ t
unfolding utf8 utf8_char
utf8-injective S.String.[] S.String.[] h = refl
utf8-injective S.String.[] (S.String.◌∷◌ d t) h = absurd (ground arith)
utf8-injective (S.String.◌∷◌ c s) S.String.[] h = absurd (ground arith)
utf8-injective (S.String.◌∷◌ c s) (S.String.◌∷◌ d t) h =
    let (same, rest) = utf8_char-cancel (code c) (code d) (utf8 s) (utf8 t) h in
    ap₂ S.String.◌∷◌ (Char-path c d same) (utf8-injective s t rest)
