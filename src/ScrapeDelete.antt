-- ===== src/ScrapeDelete.antt =====
-- `authorize_scrape_delete` of backend/app/modules/data_firewall/update_validator.py: the door for
-- deletions that the scraper owns. The theorems are in `Laws`.
pub mod Laws
use imperecta.Base.{
  String, Bool, not, Option, none, some, List, [], ◌∷◌, elem, is_empty, Dict, get, Result, ok,
  if◌then◌else◌,
}
use imperecta.Payload.{Value}
use imperecta.Contracts.{table_locators}
use imperecta.Firewall.{Gate, Note, text, Decision, reject}
use imperecta.Doors.{locator_only}

abbrev pub scrape_delete_tables : List String
scrape_delete_tables = "fact_listing" ∷ "dim_product" ∷ []

module _ (g : Gate) (has_db : Bool) (source table : String) (fields : Dict Value) where
  -- a table with no locator contract, or an empty one
  with_locator : Option (List String) → Result Decision
  with_locator none =
      ok (reject has_db source table "delete" "missing_locator" ("missing_locator" ∷ []) fields [])
  with_locator (some locator_keys) =
      if is_empty locator_keys
      then ok
          (reject has_db source table "delete" "missing_locator" ("missing_locator" ∷ []) fields [])
      else locator_only g has_db source table "delete" (("table", text (some table)) ∷ [])
          locator_keys fields

  unfoldable pub authorize_scrape_delete : Result Decision
  unfolding with_locator
  authorize_scrape_delete =
      if not (elem table scrape_delete_tables)
      then ok (
          reject has_db source table "delete" "unknown_delete_table" ("unknown_delete_table" ∷ [])
            fields (("table", text (some table)) ∷ []))
      else with_locator (get table_locators table)
