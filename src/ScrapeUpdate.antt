-- ===== src/ScrapeUpdate.antt =====
-- `authorize_scrape_update` of backend/app/modules/data_firewall/update_validator.py: the door for
-- updates that the scraper owns. The theorems are in `Laws`.
pub mod Laws
use imperecta.Base.{
  String, Bool, true, false, not, Option, none, some, List, [], ◌∷◌, Dict, get, is_empty, Result,
  ok, if◌then◌else◌,
}
use imperecta.Payload.{Value, read, is_true}
use imperecta.Contracts.{table_locators}
use imperecta.Firewall.{Gate, Note, text, texts, Decision, reject}
use imperecta.Doors.{
  missing_columns, payload_columns, disallowed_columns, reject_columns, sign_or_reject,
}

listing_kinds : Dict (List String)
listing_kinds =
    ("listing_scrape_start_reset", "consecutive_errors" ∷ "last_error" ∷ [])
    ∷ ("listing_success_streak_reset", "failure_streak" ∷ [])
    ∷ ("listing_housekeeping_failure", "consecutive_errors" ∷ "last_error" ∷ "failure_streak" ∷ [])
    ∷ ("listing_deactivate", "is_active" ∷ [])
    ∷ ("listing_checked", "last_checked_at" ∷ [])
    ∷ ("listing_sitemap_lastmod", "sitemap_lastmod" ∷ [])
    ∷ (
      "listing_denorm_success",
      "last_price" ∷ "last_currency_code" ∷ "last_price_changed_at" ∷ "last_price_eur"
          ∷ "last_price_change_pct" ∷ "scrape_interval_minutes" ∷ [],
    )
    ∷ (
      "listing_denorm_no_change",
      "last_checked_at" ∷ "last_price" ∷ "last_currency_code" ∷ "last_price_eur"
          ∷ "scrape_interval_minutes" ∷ [],
    )
    ∷ []

product_kinds : Dict (List String)
product_kinds =
    (
      "product_enrich",
      "name" ∷ "name_normalized" ∷ "image_url" ∷ "brand_id" ∷ "category_id" ∷ "attributes"
          ∷ "product_type" ∷ "product_type_en" ∷ "title_en" ∷ "sku_universal" ∷ "mpn" ∷ [],
    )
    ∷ ("product_match", "match_group_id" ∷ "match_method" ∷ "match_confidence" ∷ [])
    ∷ []

unfoldable pub scrape_update_allowlist : Dict (Dict (List String))
unfolding listing_kinds product_kinds
scrape_update_allowlist =
    ("fact_listing", listing_kinds)
    ∷ ("dim_category", ("category_translate", "name_en" ∷ []) ∷ [])
    ∷ ("dim_product", product_kinds)
    ∷ []

-- `SCRAPE_UPDATE_ALLOWLIST.get(table)`, and in it the kind
unfoldable pub kind_columns : String → String → Option (List String)
kind_columns table kind = elim (get scrape_update_allowlist table) [
  | none ↦ none
  | some kinds ↦ get kinds kind
]

module _ (g : Gate) (has_db : Bool) (source table kind : String) (fields : Dict Value) where
  refuse : String → List String → Dict Note → Decision
  refuse reason rules notes = reject has_db source table "update" reason rules fields notes

  -- the checks after the locator contract is known
  check_payload : List String → List String → Result Decision
  unfolding refuse
  check_payload allowed locator_keys =
      let missing = missing_columns locator_keys fields in
      let changed = payload_columns locator_keys fields in
      let disallowed = disallowed_columns allowed changed in
      if not (is_empty missing)
      then ok (refuse "missing_locator" ("missing_locator" ∷ []) (("missing", texts missing) ∷ []))
      else if is_empty changed
      then ok (refuse "nothing_to_update" ("nothing_to_update" ∷ []) [])
      else if not (is_empty disallowed)
      then ok (
          reject_columns has_db source table "update" "column_not_allowed" disallowed fields
            (("kind", text (some kind)) ∷ []))
      else if is_true (read fields "is_active")
      then ok (refuse "reactivation_forbidden" ("reactivation_forbidden" ∷ []) [])
      else sign_or_reject g has_db source table "update" fields
          (("table", text (some table)) ∷ ("kind", text (some kind)) ∷ [])

  -- a table with no locator contract, or an empty one
  with_locator : List String → Option (List String) → Result Decision
  unfolding refuse check_payload
  with_locator allowed none = ok (refuse "missing_locator" ("missing_locator_contract" ∷ []) [])
  with_locator allowed (some locator_keys) =
      if is_empty locator_keys
      then ok (refuse "missing_locator" ("missing_locator_contract" ∷ []) [])
      else check_payload allowed locator_keys

  unfoldable pub authorize_scrape_update : Result Decision
  unfolding refuse with_locator
  authorize_scrape_update = elim (kind_columns table kind) [
    | none ↦ ok (
        refuse "unknown_update_kind" ("unknown_update_kind" ∷ [])
          (("table", text (some table)) ∷ ("kind", text (some kind)) ∷ []))
    | some allowed ↦ with_locator allowed (get table_locators table)
  ]
