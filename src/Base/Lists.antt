-- ===== src/Base/Lists.antt =====
-- Lists measured by native numbers, the membership test, filters and Python's `sorted` on texts.
use Prim.Native.Nat.{ℕ, suc, ◌+◌}
use Prim.Native.String.{String, compare}
use mathlib.Core.Path.{◌≡◌, refl}
use mathlib.Core.Logic.{inl, inr}
use mathlib.Core.Bool.{Bool, true, false, not, ◌&&◌, ◌||◌}
use mathlib.Core.List.{List, [], ◌∷◌, ◌++◌}
use native.Mathlib.Omega.{arith}
use text.Mathlib.Text.{◌==◌, is_le}
use text.Mathlib.TextEquality.{eq_iff}
use imperecta.Base.Tests.{if◌then◌else◌, Bool-cases}

module _ {ℓ} {A : Type ℓ} where
  abbrev pub length : List A → ℕ
  length [] = 0
  length (x ∷ xs) = suc (length xs)

  pub length-append : (xs ys : List A) → length (xs ++ ys) ≡ length xs + length ys
  length-append [] ys = omega arith
  length-append (x ∷ xs) ys = omega (arith, length-append xs ys)

  abbrev pub is_empty : List A → Bool
  is_empty [] = true
  is_empty (x ∷ xs) = false

  -- `[x for x in xs if p(x)]`
  unfoldable pub keep : (A → Bool) → List A → List A
  keep p [] = []
  keep p (x ∷ xs) = let rest = keep p xs in if p x then x ∷ rest else rest

  abbrev pub all : (A → Bool) → List A → Bool
  all p [] = true
  all p (x ∷ xs) = p x && all p xs

module _ {ℓ κ} {A : Type ℓ} (P : A → Type κ) where
  abbrev pub All : List A → Type κ
  All [] = Unit
  All (x ∷ xs) = P x × All xs

-- `x in xs`
abbrev pub elem : String → List String → Bool
elem x [] = false
elem x (y ∷ ys) = y == x || elem x ys

pub insert_sorted : String → List String → List String
insert_sorted x [] = x ∷ []
insert_sorted x (y ∷ ys) =
    let rest = insert_sorted x ys in if is_le (compare x y) then x ∷ y ∷ ys else y ∷ rest

-- `sorted(xs)`, by code points
unfoldable pub sorted : List String → List String
unfolding insert_sorted
sorted [] = []
sorted (x ∷ xs) = insert_sorted x (sorted xs)

insert_sorted-nonempty : (x : String) (ys : List String) → is_empty (insert_sorted x ys) ≡ false
unfolding insert_sorted
insert_sorted-nonempty x [] = refl
insert_sorted-nonempty x (y ∷ ys) = ground arith

-- Sorting keeps a list empty or not.
pub is_empty-sorted : (xs : List String) → is_empty (sorted xs) ≡ is_empty xs
unfolding sorted
is_empty-sorted [] = refl
is_empty-sorted (x ∷ xs) = insert_sorted-nonempty x (sorted xs)

length-insert_sorted :
    (x : String) (ys : List String) → length (insert_sorted x ys) ≡ suc (length ys)
unfolding insert_sorted
length-insert_sorted x [] = refl
length-insert_sorted x (y ∷ ys) = ground (arith, length-insert_sorted x ys)

pub length-sorted : (xs : List String) → length (sorted xs) ≡ length xs
unfolding sorted
length-sorted [] = refl
length-sorted (x ∷ xs) = omega (arith, length-insert_sorted x (sorted xs), length-sorted xs)

module _ {ℓ} {A : Type ℓ} (p : A → Bool) where
  -- Nothing is kept exactly when every element fails the test.
  pub is_empty-keep : (xs : List A) → is_empty (keep p xs) ≡ all (λ x. not (p x)) xs
  unfolding keep
  is_empty-keep [] = refl
  is_empty-keep (x ∷ xs) = elim (Bool-cases (p x)) [
    | inl e ↦ rw e
    | inr e ↦ rw e (is_empty-keep xs)
  ]

pub all-elem :
    (p : String → Bool) (k : String) (xs : List String)
    → all p xs ≡ true
    → elem k xs ≡ true
    → p k ≡ true
all-elem p k [] h e = absurd (cc)
all-elem p k (x ∷ xs) h e = ground (arith, eq_iff x k, all-elem p k xs)
