-- ===== src/Doors/Closing.antt =====
-- The signing that ends each door.
use imperecta.Base.{
  String, ◌⊎◌, inl, inr, ◌≡◌, Bool, true, Option, none, some, List, [], ◌∷◌, arith, Dict, has, all,
  get, Result, ok, value_error, type_error, >>=-eq-ok, Returns,
}
use mathlib.Core.Path.{subst, sym}
use imperecta.Payload.{Value}
use imperecta.Signing.{SignedRecord, sign, signing_secret}
use imperecta.Contracts.{table_locators, extract_locator_total}
use imperecta.Firewall.{Gate, Note, Decision, reject, accept, sign_fields, signed_with}
use imperecta.Firewall.Decided.{
  Decided, IsAccepted, IsRejected, reject-IsRejected, reject-Decided, accept-Decided,
  sign_fields-IsSigned,
}
use imperecta.Doors.{close, sign_or_reject, reject_columns}

module _ (g : Gate) (has_db : Bool) (source table operation : String) (fields : Dict Value)
    (notes : Dict Note) where
  close-Decided :
      (o : Option SignedRecord)
      → sign_fields g table operation fields ≡ ok o
      → Decided g has_db source table operation fields
          (close g has_db source table operation fields notes o)
  unfolding close
  close-Decided none h =
      reject-Decided g has_db source table operation "signing_unavailable"
        ("signing_secret_missing" ∷ []) fields []
  close-Decided (some r) h =
      accept-Decided g has_db source table operation fields notes r
        (sign_fields-IsSigned g table operation fields r h)

  pub sign_or_reject-Decided :
      (d : Decision)
      → sign_or_reject g has_db source table operation fields notes ≡ ok d
      → Decided g has_db source table operation fields d
  unfolding sign_or_reject
  sign_or_reject-Decided d h =
      let (o, signed, e) = >>=-eq-ok (sign_fields g table operation fields) _ h in
      let e' : close g has_db source table operation fields notes o ≡ d = ground arith in
      subst (Decided g has_db source table operation fields) e' (close-Decided o signed)

  -- With every locator column in the payload, signing raises nothing.
  pub sign_or_reject_total :
      (locator_keys : List String)
      → get table_locators table ≡ some locator_keys
      → all (has fields) locator_keys ≡ true
      → (d : Decision) × (sign_or_reject g has_db source table operation fields notes ≡ ok d)
  unfolding sign_or_reject sign_fields
  sign_or_reject_total locator_keys known present =
      let (locator, e) = extract_locator_total table fields locator_keys known present in
      (
        close g has_db source table operation fields notes
            (signed_with g table operation fields locator),
        ground arith,
      )

  -- With a secret and every locator column in the payload, the write is signed.
  pub sign_or_reject_passes :
      (secret : String) (locator_keys : List String)
      → signing_secret g.signer ≡ some secret
      → get table_locators table ≡ some locator_keys
      → all (has fields) locator_keys ≡ true
      → (d : Decision) × (sign_or_reject g has_db source table operation fields notes ≡ ok d)
        × (d.outcome.passed ≡ true)
  unfolding sign_or_reject sign_fields signed_with sign close accept
  sign_or_reject_passes secret locator_keys usable known present =
      let (locator, e) = extract_locator_total table fields locator_keys known present in
      (
        close g has_db source table operation fields notes
            (signed_with g table operation fields locator),
        ground arith,
        ground arith,
      )

-- A signed pass under the condition `X`, or a rejection.
abbrev pub Sound : Gate → Bool → String → String → String → Dict Value → Type 0 → Decision → Type 0
Sound g has_db source table operation fields X d =
    (IsAccepted g table operation fields d × X) ⊎ IsRejected has_db source table operation fields d

module _ (g : Gate) (has_db : Bool) (source table operation : String) (fields : Dict Value)
    (X : Type 0) where
  pub reject-Sound :
      (reason : String) (rules : List String) (notes : Dict Note)
      → Sound g has_db source table operation fields X
          (reject has_db source table operation reason rules fields notes)
  reject-Sound reason rules notes =
      inr (reject-IsRejected has_db source table operation reason rules fields notes)

  pub reject_columns-Sound :
      (label : String) (columns : List String) (notes : Dict Note)
      → Sound g has_db source table operation fields X
          (reject_columns has_db source table operation label columns fields notes)
  unfolding reject_columns
  reject_columns-Sound label columns notes = reject-Sound _ _ notes

  Decided-Sound :
      (d : Decision)
      → X
      → Decided g has_db source table operation fields d
      → Sound g has_db source table operation fields X d
  Decided-Sound d x (inl accepted) = inl (accepted, x)
  Decided-Sound d x (inr rejected) = inr rejected

  pub sign_or_reject-Sound :
      (notes : Dict Note) (locator_keys : List String)
      → get table_locators table ≡ some locator_keys
      → all (has fields) locator_keys ≡ true
      → X
      → Returns
          (Sound g has_db source table operation fields X)
          (sign_or_reject g has_db source table operation fields notes)
  sign_or_reject-Sound notes locator_keys known present x =
      let (d, e) =
        sign_or_reject_total g has_db source table operation fields notes locator_keys known
          present in
      subst (Returns (Sound g has_db source table operation fields X)) (sym e) (
        Decided-Sound d x (sign_or_reject-Decided g has_db source table operation fields notes d e))

  -- A stronger condition may be weakened.
  pub Returns-Sound_map :
      {Y : Type 0}
      → (X → Y)
      → (m : Result Decision) → Returns (Sound g has_db source table operation fields X) m
      → Returns (Sound g has_db source table operation fields Y) m
  Returns-Sound_map f (ok d) (inl (accepted, x)) = inl (accepted, f x)
  Returns-Sound_map f (ok d) (inr rejected) = inr rejected
  Returns-Sound_map f (value_error message) impossible = impossible
  Returns-Sound_map f (type_error message) impossible = impossible
