-- ===== src/Matching/Signature/Strongest.antt =====
-- The strongest of the codes.
use imperecta.Base.{
  if-Has, String, ◌≡◌, refl, sym, ◌∙◌, true, false, ◌==◌, eq_iff, eq_refl, List, [], ◌∷◌, elem,
  Bool-cases, inl, inr, lt_text, lt_text_irrefl, lt_text_trans, lt_text_total, arith,
}
use imperecta.Matching.Signature.{stronger, strongest_of}

not_before : (a b c : String) → lt_text a b ≡ false → lt_text b c ≡ false → lt_text a c ≡ false
not_before a b c h k = elim (Bool-cases (lt_text a c)) [
  | inr e ↦ e
  | inl e ↦ elim (Bool-cases (a == b)) [
    | inl same ↦ let here = (eq_iff a b).0 same in absurd (ground arith)
    | inr other ↦ let back = lt_text_trans b a c (lt_text_total a b other h) e in absurd (cc)
  ]
]

not_stronger : (a b c : String) → stronger a b ≡ false → stronger b c ≡ false → stronger a c ≡ false
unfolding stronger
not_stronger a b c h k = let later = not_before a b c in ground arith

not_stronger_self : (a : String) → stronger a a ≡ false
unfolding stronger
not_stronger_self a = let self = lt_text_irrefl a in ground arith

-- of two codes one is at least as strong
asymmetric : (a b : String) → stronger a b ≡ true → stronger b a ≡ false
unfolding stronger
asymmetric a b h = let back = lt_text_trans a b a in let self = lt_text_irrefl a in ground arith

elem-here : (x : String) (xs : List String) → elem x (x ∷ xs) ≡ true
elem-here x xs = rw (eq_refl x) refl

later : (c a : String) (codes : List String) → elem c codes ≡ true → elem c (a ∷ codes) ≡ true
later c a codes h = ground arith

swapped :
    (c a b : String) (codes : List String)
    → elem c (a ∷ b ∷ codes) ≡ true
    → elem c (b ∷ a ∷ codes) ≡ true
swapped c a b codes h = ground arith

pub strongest_of-member :
    (best : String) (codes : List String) → elem (strongest_of best codes) (best ∷ codes) ≡ true
unfolding strongest_of
strongest_of-member best [] = elem-here best []
strongest_of-member best (code ∷ codes) =
    if-Has (λ b. elem (strongest_of b codes) (best ∷ code ∷ codes) ≡ true) (stronger code best)
      (later _ best (code ∷ codes) (strongest_of-member code codes))
      (swapped _ code best codes (later _ code (best ∷ codes) (strongest_of-member best codes)))

weaker :
    (c old new : String) (codes : List String) (top : String)
    → (elem c (old ∷ new ∷ codes) ≡ true)
    → stronger old top ≡ false
    → (elem c (new ∷ codes) ≡ true → stronger c top ≡ false)
    → stronger c top ≡ false
weaker c old new codes top known old_weaker others = elim (Bool-cases (old == c)) [
  | inl e ↦ rw⁻¹ ((eq_iff old c).0 e) old_weaker
  | inr n ↦ others (ground arith)
]

-- No code is stronger than the one that is picked.
pub strongest_of-least :
    (best : String) (codes : List String) (c : String)
    → elem c (best ∷ codes) ≡ true
    → stronger c (strongest_of best codes) ≡ false
unfolding strongest_of
strongest_of-least best [] c known =
    let self = not_stronger_self best in let here = eq_iff best c in ground arith
strongest_of-least best (code ∷ codes) c known = elim (Bool-cases (stronger code best)) [
  | inl e ↦
      let top = strongest_of-least code codes code (elem-here code codes) in
      rw e (
        weaker c best code codes (strongest_of code codes) known
          (not_stronger best code (strongest_of code codes) (asymmetric code best e) top)
          (strongest_of-least code codes c))
  | inr e ↦
      let top = strongest_of-least best codes best (elem-here best codes) in
      rw e (
        weaker c code best codes (strongest_of best codes) (swapped c best code codes known)
          (not_stronger code best (strongest_of best codes) e top)
          (strongest_of-least best codes c))
]

as_strong : (a b : String) → stronger a b ≡ false → stronger b a ≡ false → a ≡ b
unfolding stronger
as_strong a b h k = let total = lt_text_total a b in let same = eq_iff a b in ground arith

-- The code that is picked depends on which codes there are, not on their order or number.
pub strongest_of-same :
    (a b : String) (xs ys : List String)
    → ((c : String) → elem c (a ∷ xs) ≡ elem c (b ∷ ys))
    → strongest_of a xs ≡ strongest_of b ys
strongest_of-same a b xs ys alike =
    let left = strongest_of a xs in
    let right = strongest_of b ys in
    as_strong left right
      (strongest_of-least b ys left (sym (alike left) ∙ strongest_of-member a xs))
      (strongest_of-least a xs right (alike right ∙ strongest_of-member b ys))
