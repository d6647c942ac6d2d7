-- ===== src/ScrapeUpdate/Laws.antt =====
-- What the update door lets through, that it always decides, and what a decision looks like.
use imperecta.Base.{
  String, ◌≡◌, refl, Bool, true, false, Option, none, some, List, [], ◌∷◌, Dict, get, has, all,
  is_empty, ok, Returns, if_rule, not-false, Option-cases, inl, inr, ◌∙◌, sym,
}
use mathlib.Core.Path.{subst}
use imperecta.Payload.{Value, read, is_true}
use imperecta.Signing.{signing_secret}
use imperecta.Contracts.{table_locators}
use imperecta.Firewall.{Gate, Decision, text}
use imperecta.Doors.{missing_columns, payload_columns}
use imperecta.Doors.Columns.{
  OnlyAllowed, is_empty-missing, disallowed-OnlyAllowed, OnlyAllowed-disallowed,
}
use imperecta.Doors.Closing.{
  Sound, reject-Sound, reject_columns-Sound, sign_or_reject-Sound, sign_or_reject_passes,
}
use imperecta.ScrapeUpdate.{kind_columns, check_payload, with_locator, authorize_scrape_update}

-- The rule book of the door: what a payload must satisfy to be signed.
pub record IsPermitted (table kind : String) (fields : Dict Value) : Type 0 where
  pub allowed : List String
  pub locator_keys : List String
  pub known_kind : kind_columns table kind ≡ some allowed
  pub known_locator : get table_locators table ≡ some locator_keys
  pub has_locator : is_empty locator_keys ≡ false
  pub located : all (has fields) locator_keys ≡ true
  pub changes_something : is_empty (payload_columns locator_keys fields) ≡ false
  pub only_allowed : OnlyAllowed locator_keys allowed fields
  pub no_reactivation : is_true (read fields "is_active") ≡ false

module _ (g : Gate) (has_db : Bool) (source table kind : String) (fields : Dict Value) where
  abbrev SoundUpdate : Decision → Type 0
  SoundUpdate = Sound g has_db source table "update" fields (IsPermitted table kind fields)

  check_payload-Sound :
      (allowed locator_keys : List String)
      → kind_columns table kind ≡ some allowed
      → get table_locators table ≡ some locator_keys
      → is_empty locator_keys ≡ false
      → Returns SoundUpdate (check_payload g has_db source table kind fields allowed locator_keys)
  unfolding check_payload
  check_payload-Sound allowed locator_keys known_kind known_locator has_locator =
      let refused =
        reject-Sound g has_db source table "update" fields (IsPermitted table kind fields) in
      if_rule (Returns SoundUpdate) _ _ _ (λ _. refused _ _ _)
        λ located.
          if_rule (Returns SoundUpdate) _ _ _ (λ _. refused _ _ _)
            λ changes.
              if_rule (Returns SoundUpdate) _ _ _
                (λ _. reject_columns-Sound g has_db source table "update" fields _ _ _ _)
                λ only.
                  if_rule (Returns SoundUpdate) _ _ _ (λ _. refused _ _ _)
                    λ inactive.
                      let present : all (has fields) locator_keys ≡ true =
                        sym (is_empty-missing locator_keys fields) ∙ not-false located in
                      sign_or_reject-Sound g has_db source table "update" fields
                        (IsPermitted table kind fields) _ locator_keys known_locator present
                        (record {
                          allowed = allowed;
                          locator_keys = locator_keys;
                          known_kind = known_kind;
                          known_locator = known_locator;
                          has_locator = has_locator;
                          located = present;
                          changes_something = changes;
                          only_allowed =
                              disallowed-OnlyAllowed locator_keys allowed fields (not-false only);
                          no_reactivation = inactive;
                        })

  with_locator-Sound :
      (allowed : List String) (locator : Option (List String))
      → kind_columns table kind ≡ some allowed
      → get table_locators table ≡ locator
      → Returns SoundUpdate (with_locator g has_db source table kind fields allowed locator)
  unfolding with_locator
  with_locator-Sound allowed none known_kind known_locator =
      reject-Sound g has_db source table "update" fields _ _ _ _
  with_locator-Sound allowed (some locator_keys) known_kind known_locator =
      if_rule (Returns SoundUpdate) _ _ _
        (λ _. reject-Sound g has_db source table "update" fields _ _ _ _)
        (check_payload-Sound allowed locator_keys known_kind known_locator)

  -- The update door raises nothing. Its decision is a signed pass with no reject row or a rejection
  -- with a reason and, given a session, one reject row; and it passes only a payload that the rule
  -- book permits: a known kind for the table, all locator columns, at least one changed column, no
  -- column outside the kind's allowlist, and no `is_active = True`.
  pub authorize_scrape_update-Sound :
      Returns SoundUpdate (authorize_scrape_update g has_db source table kind fields)
  unfolding authorize_scrape_update
  authorize_scrape_update-Sound = elim (Option-cases (kind_columns table kind)) [
    | inl e ↦
        rw (e, authorize_scrape_update) (reject-Sound g has_db source table "update" fields _ _ _ _)
    | inr (allowed, e) ↦
        rw (e, authorize_scrape_update)
          (with_locator-Sound allowed (get table_locators table) e refl)
  ]

  -- Every payload that the rule book permits is passed, once a signing secret is configured.
  pub authorize_scrape_update_complete :
      (secret : String)
      → signing_secret g.signer ≡ some secret
      → IsPermitted table kind fields
      → Returns
          (λ d. d.outcome.passed ≡ true)
          (authorize_scrape_update g has_db source table kind fields)
  unfolding authorize_scrape_update
  authorize_scrape_update_complete secret usable p =
      let located : is_empty (missing_columns p.locator_keys fields) ≡ true =
        is_empty-missing p.locator_keys fields ∙ p.located in
      let only = OnlyAllowed-disallowed p.locator_keys p.allowed fields p.only_allowed in
      let (d, e, passed) =
        sign_or_reject_passes g has_db source table "update" fields
          (("table", text (some table)) ∷ ("kind", text (some kind)) ∷ []) secret p.locator_keys
          usable p.known_locator p.located in
      let same : authorize_scrape_update g has_db source table kind fields ≡ ok d =
        unfold with_locator check_payload in
        rw (p.known_kind, authorize_scrape_update)
          (rw
            (p.known_locator, p.has_locator, located, p.changes_something, only, p.no_reactivation)
            e) in
      subst (Returns (λ x. x.outcome.passed ≡ true)) (sym same) passed
