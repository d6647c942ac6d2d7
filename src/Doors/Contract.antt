-- ===== src/Doors/Contract.antt =====
-- The end of the insert and update doors.
use imperecta.Base.{
  String, ◌≡◌, Bool, true, some, List, Dict, has, all, get, ok, Returns, if_rule, not-false, sym,
}
use mathlib.Core.Path.{subst}
use imperecta.Payload.{Value}
use imperecta.Signing.{signing_secret}
use imperecta.Contracts.{table_locators}
use imperecta.Firewall.{Gate, Note}
use imperecta.Doors.{validate_and_sign, validate_contract_subset}
use imperecta.Doors.Closing.{Sound, reject-Sound, sign_or_reject-Sound, sign_or_reject_passes}

-- The fields pass the column contract of the table.
abbrev pub MeetsContract : Gate → String → Dict Value → Type 0
MeetsContract g table fields = (validate_contract_subset g table fields).0 ≡ true

module _ (g : Gate) (has_db : Bool) (source table operation : String) (notes : Dict Note)
    (validated fields : Dict Value) (locator_keys : List String) where
  pub validate_and_sign-Sound :
      (X : Type 0)
      → get table_locators table ≡ some locator_keys
      → all (has fields) locator_keys ≡ true
      → (MeetsContract g table validated → X)
      → Returns
          (Sound g has_db source table operation fields X)
          (validate_and_sign g has_db source table operation notes validated fields)
  unfolding validate_and_sign
  validate_and_sign-Sound X known located x =
      if_rule (Returns (Sound g has_db source table operation fields X)) _ _ _
        (λ _. reject-Sound g has_db source table operation fields X _ _ _)
        λ valid.
          sign_or_reject-Sound g has_db source table operation fields X notes locator_keys known
            located (x (not-false valid))

  pub validate_and_sign_complete :
      (secret : String)
      → signing_secret g.signer ≡ some secret
      → get table_locators table ≡ some locator_keys
      → all (has fields) locator_keys ≡ true
      → MeetsContract g table validated
      → Returns
          (λ d. d.outcome.passed ≡ true)
          (validate_and_sign g has_db source table operation notes validated fields)
  unfolding validate_and_sign
  validate_and_sign_complete secret usable known located valid =
      let (d, signed, passed) =
        sign_or_reject_passes g has_db source table operation fields notes secret locator_keys
          usable known located in
      let same : validate_and_sign g has_db source table operation notes validated fields ≡ ok d =
        rw (valid, validate_and_sign) signed in
      subst (Returns (λ x. x.outcome.passed ≡ true)) (sym same) passed
