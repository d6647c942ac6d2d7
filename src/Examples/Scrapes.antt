-- ===== src/Examples/Scrapes.antt =====
-- Calls of the doors for updates and deletions by the scraper.
use imperecta.Base.{
  sorted, keep, ◌≡◌, refl, true, false, some, [], ◌∷◌, Dict, Returns, get, is_empty,
}
use imperecta.Payload.{is_blank, Value, str, boolean}
use imperecta.Signing.{signing_secret}
use imperecta.Contracts.{table_locators}
use imperecta.Doors.{disallowed_columns, payload_columns}
use imperecta.Doors.Columns.{OnlyAllowed, disallowed-OnlyAllowed}
use imperecta.Doors.Closing.{Sound}
use imperecta.ScrapeUpdate.{scrape_update_allowlist, kind_columns, authorize_scrape_update}
use imperecta.ScrapeUpdate.Laws.{IsPermitted, authorize_scrape_update-Sound}
use imperecta.ScrapeDelete.{authorize_scrape_delete}
use imperecta.ScrapeDelete.Laws.{IsDeletable, authorize_scrape_delete-Sound}
use imperecta.Examples.{signer, gate}

abbrev update : Dict Value
update = ("url_hash", str "ab") ∷ ("is_active", boolean false) ∷ []

abbrev row : Dict Value
row = ("url_hash", str "ab") ∷ []

authorize_scrape_update-Sound_example :
    Returns
      (Sound gate true "scraper" "fact_listing" "update" update
        (IsPermitted "fact_listing" "listing_deactivate" update))
      (authorize_scrape_update gate true "scraper" "fact_listing" "listing_deactivate" update)
authorize_scrape_update-Sound_example =
    authorize_scrape_update-Sound gate true "scraper" "fact_listing" "listing_deactivate" update

pub usable : signing_secret signer ≡ some "secret"
unfolding signing_secret is_blank
usable = refl

known_kind : kind_columns "fact_listing" "listing_deactivate" ≡ some ("is_active" ∷ [])
unfolding kind_columns scrape_update_allowlist
known_kind = refl

known_locator : get table_locators "fact_listing" ≡ some ("url_hash" ∷ [])
unfolding table_locators
known_locator = refl

changes : is_empty (payload_columns ("url_hash" ∷ []) update) ≡ false
unfolding payload_columns keep
changes = refl

only_flag : OnlyAllowed ("url_hash" ∷ []) ("is_active" ∷ []) update
unfolding disallowed_columns sorted keep payload_columns
only_flag = disallowed-OnlyAllowed ("url_hash" ∷ []) ("is_active" ∷ []) update refl

deactivation : IsPermitted "fact_listing" "listing_deactivate" update
deactivation = record {
  allowed = "is_active" ∷ [];
  locator_keys = "url_hash" ∷ [];
  known_kind = known_kind;
  known_locator = known_locator;
  has_locator = refl;
  located = refl;
  changes_something = changes;
  only_allowed = only_flag;
  no_reactivation = refl;
}

authorize_scrape_delete-Sound_example :
    Returns
      (Sound gate true "scraper_prune" "fact_listing" "delete" row (IsDeletable "fact_listing" row))
      (authorize_scrape_delete gate true "scraper_prune" "fact_listing" row)
authorize_scrape_delete-Sound_example =
    authorize_scrape_delete-Sound gate true "scraper_prune" "fact_listing" row

nothing_else : is_empty (payload_columns ("url_hash" ∷ []) row) ≡ true
unfolding payload_columns keep
nothing_else = refl

deletable : IsDeletable "fact_listing" row
deletable = record {
  deletable_table = refl;
  locator_only_payload = record {
    locator_keys = "url_hash" ∷ [];
    known_locator = known_locator;
    has_locator = refl;
    located = refl;
    no_others = nothing_else;
  };
}
