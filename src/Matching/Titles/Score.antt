-- ===== src/Matching/Titles/Score.antt =====
-- The score of two titles does not depend on their order.
use imperecta.Base.{
  ℕ, ◌+◌, ◌≤◌, String, ◌≡◌, refl, Bool, true, false, ◌||◌, eq_iff, Option, none, some, List, [],
  ◌∷◌, elem, is_empty, length, Bool-cases, inl, inr, arith,
}
use mathlib.Core.Path.{ap₂}
use imperecta.Matching.Titles.{
  UnitAttr, unit_attr, attrs_conflict, conflicts_with, any_conflict, Fraction, no_score, shared,
  unshared, jaccard, distinct, title_similarity,
}

-- every element once
abbrev IsDistinct : List String → Type 0
IsDistinct [] = Unit
IsDistinct (x ∷ xs) = (elem x xs ≡ false) × IsDistinct xs

elem-distinct : (x : String) (ts : List String) → elem x (distinct ts) ≡ elem x ts
unfolding distinct
elem-distinct x [] = refl
elem-distinct x (t ∷ ts) =
    let rest = elem-distinct x ts in
    let known = elem-distinct t ts in let same = eq_iff t x in ground arith

distinct-IsDistinct : (ts : List String) → IsDistinct (distinct ts)
unfolding distinct
distinct-IsDistinct [] = tt
distinct-IsDistinct (t ∷ ts) = elim (Bool-cases (elem t (distinct ts))) [
  | inl e ↦ rw e (distinct-IsDistinct ts)
  | inr e ↦ rw e (e, distinct-IsDistinct ts)
]

count : Bool → ℕ
count true = 1
count false = 0

shared-none : (a : List String) → shared a [] ≡ 0
unfolding shared
shared-none [] = refl
shared-none (t ∷ a) = shared-none a

-- one more token on the right
shared-more :
    (a b : List String) (t : String)
    → IsDistinct a
    → elem t b ≡ false
    → shared a (t ∷ b) ≡ shared a b + count (elem t a)
unfolding shared count
shared-more [] b t set fresh = omega arith
shared-more (s ∷ a) b t set fresh =
    let rest = shared-more a b t set.1 fresh in
    let here = eq_iff t s in let there = eq_iff s t in let once = set.0 in ground arith

shared_comm : (a b : List String) → IsDistinct a → IsDistinct b → shared a b ≡ shared b a
unfolding shared count
shared_comm a [] sa sb = shared-none a
shared_comm a (t ∷ b) sa sb =
    let more = shared-more a b t sa sb.0 in let rest = shared_comm a b sa sb.1 in ground arith

split : (a b : List String) → shared a b + unshared a b ≡ length a
unfolding shared unshared
split [] b = refl
split (t ∷ a) b = let rest = split a b in ground arith

jaccard_comm : (a b : List String) → IsDistinct a → IsDistinct b → jaccard a b ≡ jaccard b a
unfolding jaccard
jaccard_comm a b sa sb =
    let same = shared_comm a b sa sb in
    let left = split a b in
    let right = split b a in
    let bottom : unshared a b + length b ≡ unshared b a + length a = omega arith in
    ap₂ (λ n d. record { numerator = n; denominator = d }) same bottom

attrs_conflict_comm : (u v : Option UnitAttr) → attrs_conflict u v ≡ attrs_conflict v u
unfolding attrs_conflict
attrs_conflict_comm none none = refl
attrs_conflict_comm none (some b) = refl
attrs_conflict_comm (some a) none = refl
attrs_conflict_comm (some a) (some b) =
    let s = eq_iff a.suffix b.suffix in
    let s' = eq_iff b.suffix a.suffix in
    let v = eq_iff a.value b.value in let v' = eq_iff b.value a.value in ground arith

any_conflict-none : (a : List String) → any_conflict a [] ≡ false
unfolding any_conflict conflicts_with
any_conflict-none [] = refl
any_conflict-none (t ∷ a) = any_conflict-none a

any_conflict-more :
    (a b : List String) (t : String)
    → any_conflict a (t ∷ b) ≡ (conflicts_with t a || any_conflict a b)
unfolding any_conflict conflicts_with
any_conflict-more [] b t = refl
any_conflict-more (s ∷ a) b t =
    let rest = any_conflict-more a b t in
    let turned = attrs_conflict_comm (unit_attr s) (unit_attr t) in ground arith

any_conflict_comm : (a b : List String) → any_conflict a b ≡ any_conflict b a
unfolding any_conflict
any_conflict_comm a [] = any_conflict-none a
any_conflict_comm a (t ∷ b) =
    let more = any_conflict-more a b t in let rest = any_conflict_comm a b in ground arith

||_comm : (a b : Bool) → (a || b) ≡ (b || a)
||_comm a b = ground arith

-- The score of two titles is the same in both orders, units that conflict included.
pub title_similarity_comm : (a b : List String) → title_similarity a b ≡ title_similarity b a
unfolding title_similarity
title_similarity_comm a b =
    rw
      (
        ||_comm (is_empty a) (is_empty b),
        any_conflict_comm a b,
        jaccard_comm (distinct a) (distinct b) (distinct-IsDistinct a) (distinct-IsDistinct b),
      )
      refl

-- one token at least
elem-length : (t : String) (ts : List String) → elem t ts ≡ true → 1 ≤ length ts
elem-length t [] e = ground arith
elem-length t (s ∷ ts) e = omega arith

distinct-length : (t : String) (ts : List String) → 1 ≤ length (distinct (t ∷ ts))
unfolding distinct
distinct-length t ts = elim (Bool-cases (elem t (distinct ts))) [
  | inl e ↦ rw e (elem-length t (distinct ts) e)
  | inr e ↦ rw e (omega arith)
]

abbrev IsScore : Fraction → Type 0
IsScore f = (f.numerator ≤ f.denominator) × (1 ≤ f.denominator)

no_score-IsScore : IsScore no_score
no_score-IsScore = (omega arith, omega arith)

jaccard-IsScore :
    (a b : List String) → IsDistinct a → IsDistinct b → 1 ≤ length b → IsScore (jaccard a b)
unfolding jaccard
jaccard-IsScore a b sa sb one =
    let same = shared_comm a b sa sb in let right = split b a in (omega arith, omega arith)

-- A score is at most 1, and its denominator is not 0.
pub title_similarity_bounded :
    (a b : List String)
    → ((title_similarity a b).numerator ≤ (title_similarity a b).denominator)
      × (1 ≤ (title_similarity a b).denominator)
unfolding title_similarity
title_similarity_bounded [] b = no_score-IsScore
title_similarity_bounded (s ∷ a) [] = no_score-IsScore
title_similarity_bounded (s ∷ a) (t ∷ b) = elim (Bool-cases (any_conflict (s ∷ a) (t ∷ b))) [
  | inl e ↦ rw e no_score-IsScore
  | inr e ↦ rw e (
      jaccard-IsScore (distinct (s ∷ a)) (distinct (t ∷ b)) (distinct-IsDistinct (s ∷ a))
        (distinct-IsDistinct (t ∷ b)) (distinct-length t b))
]
