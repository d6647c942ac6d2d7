-- ===== src/Doors/Locator.antt =====
-- The end of the delete doors.
use imperecta.Base.{
  String, ◌≡◌, Bool, true, false, some, List, Dict, has, all, get, is_empty, is_empty-sorted,
  Bool-cases, inl, inr, ok, Returns, if_rule, not-false, ◌∙◌, sym,
}
use mathlib.Core.Path.{subst}
use imperecta.Payload.{Value}
use imperecta.Signing.{signing_secret}
use imperecta.Contracts.{table_locators, extract_locator_total, extract_locator_fails}
use imperecta.Firewall.{Gate, Note}
use imperecta.Doors.{locator_only, payload_columns}
use imperecta.Doors.Closing.{
  Sound, reject-Sound, reject_columns-Sound, sign_or_reject-Sound, sign_or_reject_passes,
}

-- The payload holds the locator columns and nothing else.
pub record IsLocatorOnly (table : String) (fields : Dict Value) : Type 0 where
  pub locator_keys : List String
  pub known_locator : get table_locators table ≡ some locator_keys
  pub has_locator : is_empty locator_keys ≡ false
  pub located : all (has fields) locator_keys ≡ true
  pub no_others : is_empty (payload_columns locator_keys fields) ≡ true

module _ (g : Gate) (has_db : Bool) (source table operation : String) (notes : Dict Note)
    (locator_keys : List String) (fields : Dict Value) where
  pub locator_only-Sound :
      get table_locators table ≡ some locator_keys
      → is_empty locator_keys ≡ false
      → Returns
          (Sound g has_db source table operation fields (IsLocatorOnly table fields))
          (locator_only g has_db source table operation notes locator_keys fields)
  unfolding locator_only
  locator_only-Sound known has_locator = elim (Bool-cases (all (has fields) locator_keys)) [
    | inl located ↦
        let (locator, e) = extract_locator_total table fields locator_keys known located in
        rw (e, locator_only)
          (if_rule
            (Returns (Sound g has_db source table operation fields (IsLocatorOnly table fields))) _
            _ _ (λ _. reject_columns-Sound g has_db source table operation fields _ _ _ _)
            λ none_extra.
              sign_or_reject-Sound g has_db source table operation fields _ notes locator_keys known
                located
                (record {
                  locator_keys = locator_keys;
                  known_locator = known;
                  has_locator = has_locator;
                  located = located;
                  no_others =
                      sym (is_empty-sorted (payload_columns locator_keys fields))
                      ∙ not-false none_extra;
                }))
    | inr absent ↦
        let (message, e) = extract_locator_fails table fields locator_keys known absent in
        rw (e, locator_only) (reject-Sound g has_db source table operation fields _ _ _ _)
  ]

  pub locator_only_complete :
      (secret : String)
      → signing_secret g.signer ≡ some secret
      → get table_locators table ≡ some locator_keys
      → all (has fields) locator_keys ≡ true
      → is_empty (payload_columns locator_keys fields) ≡ true
      → Returns
          (λ d. d.outcome.passed ≡ true)
          (locator_only g has_db source table operation notes locator_keys fields)
  unfolding locator_only
  locator_only_complete secret usable known located no_others =
      let (locator, e) = extract_locator_total table fields locator_keys known located in
      let (d, signed, passed) =
        sign_or_reject_passes g has_db source table operation fields notes secret locator_keys
          usable known located in
      let same : locator_only g has_db source table operation notes locator_keys fields ≡ ok d =
        rw (e, is_empty-sorted, no_others, locator_only) signed in
      subst (Returns (λ x. x.outcome.passed ≡ true)) (sym same) passed

pub IsLocatorOnly-at :
    (table : String) (fields : Dict Value) (locator_keys : List String)
    → get table_locators table ≡ some locator_keys
    → IsLocatorOnly table fields
    → (all (has fields) locator_keys ≡ true)
      × (is_empty (payload_columns locator_keys fields) ≡ true)
IsLocatorOnly-at table fields locator_keys known p =
    let e : some p.locator_keys ≡ some locator_keys = sym p.known_locator ∙ known in
    let same : p.locator_keys ≡ locator_keys = cc in
    (
      subst (λ ks. all (has fields) ks ≡ true) same p.located,
      subst (λ ks. is_empty (payload_columns ks fields) ≡ true) same p.no_others,
    )
