-- ===== src/Doors/Columns.antt =====
-- What empty lists of missing and of disallowed columns mean.
use imperecta.Base.{
  String, ◌≡◌, ◌⊎◌, inl, inr, refl, ◌∙◌, sym, Bool, true, not, List, [], ◌∷◌, arith, Dict, keys,
  has, elem, all, keep, is_empty, is_empty-keep, is_empty-sorted, all-elem, Bool-cases, eq_iff,
  ◌||◌, ◌&&◌,
}
use imperecta.Payload.{Value}
use imperecta.Doors.{missing_columns, payload_columns, disallowed_columns}

-- every column of the payload is a locator column or an allowed one
abbrev pub OnlyAllowed : List String → List String → Dict Value → Type 0
OnlyAllowed locator_keys allowed fields =
    (key : String)
    → has fields key ≡ true
    → (elem key locator_keys ≡ true) ⊎ (elem key allowed ≡ true)

module _ {ℓ} {A : Type ℓ} (p : A → Bool) where
  all-not-not : (xs : List A) → all (λ x. not (not (p x))) xs ≡ all p xs
  all-not-not [] = refl
  all-not-not (x ∷ xs) = ground (arith, all-not-not xs)

-- No locator column is missing exactly when all are present.
pub is_empty-missing :
    (locator_keys : List String) (fields : Dict Value)
    → is_empty (missing_columns locator_keys fields) ≡ all (has fields) locator_keys
unfolding missing_columns
is_empty-missing locator_keys fields =
    is_empty-keep (λ key. not (has fields key)) locator_keys ∙ all-not-not (has fields) locator_keys

module _ (locator_keys allowed : List String) where
  -- the test that a column passes if it is a locator column or an allowed one
  fine : String → Bool
  fine key = elem key locator_keys || elem key allowed

  is_empty-disallowed_at :
      (ks : List String)
      → is_empty
          (keep (λ key. not (elem key allowed)) (keep (λ key. not (elem key locator_keys)) ks))
        ≡ all fine ks
  unfolding keep fine
  is_empty-disallowed_at [] = refl
  is_empty-disallowed_at (k ∷ ks) = elim (Bool-cases (elem k locator_keys)) [
    | inl e ↦ rw e (is_empty-disallowed_at ks)
    | inr e ↦ rw e (elim (Bool-cases (elem k allowed)) [
      | inl e' ↦ rw e' (is_empty-disallowed_at ks)
      | inr e' ↦ rw e'
    ])
  ]

  is_empty-disallowed :
      (fields : Dict Value)
      → is_empty (disallowed_columns allowed (payload_columns locator_keys fields))
        ≡ all fine (keys fields)
  unfolding disallowed_columns payload_columns
  is_empty-disallowed fields = is_empty-sorted _ ∙ is_empty-disallowed_at (keys fields)

  all-fine_of :
      (ks : List String)
      → ((key : String) → elem key ks ≡ true → fine key ≡ true)
      → all fine ks ≡ true
  all-fine_of [] h = refl
  all-fine_of (k ∷ ks) h =
      let here = h k (ground (arith, eq_iff k k)) in
      let later = all-fine_of ks (λ key e. h key (ground arith)) in ground arith

  -- No column is disallowed exactly when the payload has only locator and allowed columns.
  pub disallowed-OnlyAllowed :
      (fields : Dict Value)
      → is_empty (disallowed_columns allowed (payload_columns locator_keys fields)) ≡ true
      → OnlyAllowed locator_keys allowed fields
  unfolding fine
  disallowed-OnlyAllowed fields h key present =
      let e = all-elem fine key (keys fields) (sym (is_empty-disallowed fields) ∙ h) present in
      ground arith

  pub OnlyAllowed-disallowed :
      (fields : Dict Value)
      → OnlyAllowed locator_keys allowed fields
      → is_empty (disallowed_columns allowed (payload_columns locator_keys fields)) ≡ true
  unfolding fine
  OnlyAllowed-disallowed fields only =
      is_empty-disallowed fields
      ∙ all-fine_of (keys fields) (λ key e. let o = only key e in ground arith)

pub elem-keep :
    (p : String → Bool) (key : String) (xs : List String)
    → elem key (keep p xs) ≡ (elem key xs && p key)
unfolding keep
elem-keep p key [] = refl
elem-keep p key (x ∷ xs) = ground (arith, eq_iff x key, elem-keep p key xs)

-- the columns of a payload are the ones it has beside the locator
pub elem-payload_columns :
    (locator_keys : List String) (fields : Dict Value) (key : String)
    → elem key (payload_columns locator_keys fields)
      ≡ (has fields key && not (elem key locator_keys))
unfolding payload_columns
elem-payload_columns locator_keys fields key =
    elem-keep (λ k. not (elem k locator_keys)) key (keys fields)
