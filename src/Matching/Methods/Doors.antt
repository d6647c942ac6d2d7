-- ===== src/Matching/Methods/Doors.antt =====
-- The payloads of the matching pass the update door.
use imperecta.Base.{
  sorted, keep, String, ◌≡◌, refl, true, false, Option, none, some, List, [], ◌∷◌, Dict, Returns,
  if-Has,
}
use imperecta.Payload.{Value, Float, str}
use imperecta.Signing.{signing_secret}
use imperecta.Contracts.{table_locators}
use imperecta.Firewall.{Gate}
use imperecta.Doors.{disallowed_columns, payload_columns}
use imperecta.Doors.Columns.{disallowed-OnlyAllowed}
use imperecta.ScrapeUpdate.{scrape_update_allowlist, kind_columns, authorize_scrape_update}
use imperecta.ScrapeUpdate.Laws.{IsPermitted, authorize_scrape_update_complete}
use imperecta.Matching.Signature.{Signature}
use imperecta.Matching.Methods.{
  is_filled, match_fields, build_gtin_fields, build_title_fields, build_unidentified_fields,
  build_match_fields,
}

abbrev match_columns : List String
match_columns = "match_group_id" ∷ "match_method" ∷ "match_confidence" ∷ []

abbrev IsMatch : Dict Value → Type 0
IsMatch = IsPermitted "dim_product" "product_match"

matched-IsMatch :
    (id group method : String) (confidence : Float)
    → IsMatch (match_fields id group method confidence)
unfolding kind_columns scrape_update_allowlist table_locators payload_columns keep
    disallowed_columns sorted
matched-IsMatch id group method confidence = record {
  allowed = match_columns;
  locator_keys = "id" ∷ [];
  known_kind = refl;
  known_locator = refl;
  has_locator = refl;
  located = refl;
  changes_something = refl;
  only_allowed =
      disallowed-OnlyAllowed ("id" ∷ []) match_columns (match_fields id group method confidence)
        refl;
  no_reactivation = refl;
}

abbrev unmatched_fields : String → Dict Value
unmatched_fields id = ("id", str id) ∷ ("match_method", str "unmatched") ∷ []

unmatched-IsMatch : (id : String) → IsMatch (unmatched_fields id)
unfolding kind_columns scrape_update_allowlist table_locators payload_columns keep
    disallowed_columns sorted
unmatched-IsMatch id = record {
  allowed = match_columns;
  locator_keys = "id" ∷ [];
  known_kind = refl;
  known_locator = refl;
  has_locator = refl;
  located = refl;
  changes_something = refl;
  only_allowed = disallowed-OnlyAllowed ("id" ∷ []) match_columns (unmatched_fields id) refl;
  no_reactivation = refl;
}

module _ (uuid5 : String → String) (normalize_title_key lower : String → String) where
  unidentified-IsMatch :
      (id : String) (signature : Option Signature) (title_en product_type_en : Option String)
      → IsMatch (
          build_unidentified_fields uuid5 normalize_title_key lower id signature title_en
            product_type_en)
  unfolding build_unidentified_fields build_title_fields
  unidentified-IsMatch id (some signature) title_en product_type_en = matched-IsMatch id _ _ _
  unidentified-IsMatch id none title_en product_type_en =
      if-Has IsMatch (is_filled title_en) (matched-IsMatch id _ _ _) (unmatched-IsMatch id)

  build_match_fields-IsMatch :
      (id : String) (signature : Option Signature)
      (sku_universal title_en product_type_en : Option String)
      → IsMatch (
          build_match_fields uuid5 normalize_title_key lower id signature sku_universal title_en
            product_type_en)
  unfolding build_match_fields build_gtin_fields
  build_match_fields-IsMatch id signature sku_universal title_en product_type_en =
      if-Has IsMatch (is_filled sku_universal) (matched-IsMatch id _ _ _)
        (unidentified-IsMatch id signature title_en product_type_en)

  -- Whatever method is chosen, the payload passes the update door, once a signing secret is
  -- configured.
  pub build_match_fields_passes :
      (g : Gate) (secret : String)
      → signing_secret g.signer ≡ some secret
      → (id : String) (signature : Option Signature)
        (sku_universal title_en product_type_en : Option String)
      → Returns
          (λ d. d.outcome.passed ≡ true)
          (authorize_scrape_update g false "product_match" "dim_product" "product_match" (
            build_match_fields uuid5 normalize_title_key lower id signature sku_universal title_en
              product_type_en))
  build_match_fields_passes g secret usable id signature sku_universal title_en product_type_en =
      authorize_scrape_update_complete g false "product_match" "dim_product" "product_match" _
        secret usable
        (build_match_fields-IsMatch id signature sku_universal title_en product_type_en)
