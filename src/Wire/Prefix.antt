-- ===== src/Wire/Prefix.antt =====
-- `_lp_string` of signing.py: a text behind its length in bytes.
use imperecta.Base.{
  suc, String, ◌≡◌, refl, ap, ◌∙◌, sym, [], ◌∷◌, ◌++◌, append_assoc, arith, length,
}
use imperecta.Wire.Utf8.{Bytes, utf8, utf8-injective}
use imperecta.Wire.Decimal.{decimal, decimal-cancel}

unfoldable pub lp_string : String → Bytes
lp_string value = let encoded = utf8 value in decimal (length encoded) ++ b':' ∷ encoded

-- Lists of equal length in front are cut off alike.
pub append_cancel :
    (ps qs xs ys : Bytes) → length ps ≡ length qs → ps ++ xs ≡ qs ++ ys → (ps ≡ qs) × (xs ≡ ys)
append_cancel [] [] xs ys e h = (refl, h)
append_cancel [] (q ∷ qs) xs ys e h = absurd (omega arith)
append_cancel (p ∷ ps) [] xs ys e h = absurd (omega arith)
append_cancel (p ∷ ps) (q ∷ qs) xs ys e h = ground (arith, append_cancel ps qs xs ys)

-- A length-prefixed text is read off in one way, whatever follows it.
pub lp_string-cancel :
    (s t : String) (xs ys : Bytes) → lp_string s ++ xs ≡ lp_string t ++ ys → (s ≡ t) × (xs ≡ ys)
unfolding lp_string
lp_string-cancel s t xs ys h =
    let front =
      sym (append_assoc (decimal (length (utf8 s))) (b':' ∷ utf8 s) xs)
      ∙ h
      ∙ append_assoc (decimal (length (utf8 t))) (b':' ∷ utf8 t) ys in
    let (same_length, tails) =
      decimal-cancel (length (utf8 s)) (length (utf8 t)) (b':' ∷ (utf8 s ++ xs))
        (b':' ∷ (utf8 t ++ ys)) refl refl front in
    let (same, rest) =
      append_cancel (b':' ∷ utf8 s) (b':' ∷ utf8 t) xs ys (ap suc same_length) tails in
    (utf8-injective s t (ground arith), rest)
