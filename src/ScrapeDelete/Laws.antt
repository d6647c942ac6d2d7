-- ===== src/ScrapeDelete/Laws.antt =====
-- What the delete door lets through, and that it always decides.
use imperecta.Base.{
  String, ◌≡◌, refl, Bool, true, Option, none, some, List, Dict, get, elem, Returns, if_rule,
  not-false,
}
use imperecta.Payload.{Value}
use imperecta.Signing.{signing_secret}
use imperecta.Contracts.{table_locators}
use imperecta.Firewall.{Gate, Decision}
use imperecta.Doors.{locator_only}
use imperecta.Doors.Closing.{Sound, reject-Sound, Returns-Sound_map}
use imperecta.Doors.Locator.{IsLocatorOnly, locator_only-Sound, locator_only_complete}
use imperecta.ScrapeDelete.{scrape_delete_tables, with_locator, authorize_scrape_delete}

-- What may be deleted: a row of one of the two tables, named by its locator columns alone.
pub record IsDeletable (table : String) (fields : Dict Value) : Type 0 where
  pub deletable_table : elem table scrape_delete_tables ≡ true
  pub locator_only_payload : IsLocatorOnly table fields

module _ (g : Gate) (has_db : Bool) (source table : String) (fields : Dict Value) where
  abbrev SoundDelete : Decision → Type 0
  SoundDelete = Sound g has_db source table "delete" fields (IsDeletable table fields)

  with_locator-Sound :
      (locator : Option (List String))
      → elem table scrape_delete_tables ≡ true
      → get table_locators table ≡ locator
      → Returns SoundDelete (with_locator g has_db source table fields locator)
  unfolding with_locator
  with_locator-Sound none known_table known_locator =
      reject-Sound g has_db source table "delete" fields _ _ _ _
  with_locator-Sound (some locator_keys) known_table known_locator =
      if_rule (Returns SoundDelete) _ _ _
        (λ _. reject-Sound g has_db source table "delete" fields _ _ _ _)
        λ has_locator.
          Returns-Sound_map g has_db source table "delete" fields (IsLocatorOnly table fields)
            (λ only. record { deletable_table = known_table; locator_only_payload = only })
            (locator_only g has_db source table "delete" _ locator_keys fields)
            (locator_only-Sound g has_db source table "delete" _ locator_keys fields known_locator
              has_locator)

  -- The delete door raises nothing. Its decision is a signed pass with no reject row or a rejection
  -- with a reason and, given a session, one reject row; and it passes only a payload for a listing
  -- or a product that holds the locator columns of the table and nothing else.
  pub authorize_scrape_delete-Sound :
      Returns
        (Sound g has_db source table "delete" fields (IsDeletable table fields))
        (authorize_scrape_delete g has_db source table fields)
  unfolding authorize_scrape_delete
  authorize_scrape_delete-Sound =
      if_rule (Returns SoundDelete) _ _ _
        (λ _. reject-Sound g has_db source table "delete" fields _ _ _ _)
        λ known_table. with_locator-Sound (get table_locators table) (not-false known_table) refl

  -- A payload that may be deleted is passed, once a signing secret is configured.
  pub authorize_scrape_delete_complete :
      (secret : String)
      → signing_secret g.signer ≡ some secret
      → IsDeletable table fields
      → Returns
          (λ d. d.outcome.passed ≡ true)
          (authorize_scrape_delete g has_db source table fields)
  unfolding authorize_scrape_delete
  authorize_scrape_delete_complete secret usable p =
      let only = p.locator_only_payload in
      unfold with_locator in
      rw (p.deletable_table, only.known_locator, only.has_locator, authorize_scrape_delete)
        (locator_only_complete g has_db source table "delete" _ only.locator_keys fields secret
          usable only.known_locator only.located only.no_others)
