-- ===== src/AlertDoor.antt =====
-- `authorize_alert_write` of backend/app/modules/data_firewall/alert_door.py: the door for alert
-- rules and alert events. What `isinstance(value, list)`, `float` and `int` make of a value are
-- arguments (`Readers`); an OverflowError of theirs is a `value_error`. `Rules` holds the
-- semantic checks, `Laws` the theorems and `Trigger` a write of the trigger engine.
pub mod Rules
pub mod Laws
pub mod Trigger
use imperecta.Base.{
  String, Bool, true, false, not, ◌==◌, Option, none, some, List, [], ◌∷◌, ◌++◌, is_empty, Dict,
  get, Result, ok, value_error, type_error, ◌>>=◌, if◌then◌else◌, or_else, keys,
}
use imperecta.Payload.{Value}
use imperecta.Signing.{SignedRecord}
use imperecta.Firewall.{Gate, Note, text, texts, Decision, reject, accept, sign_fields}
use imperecta.Doors.{disallowed_columns, payload_columns, labelled, checked_contract_subset}
use imperecta.AlertDoor.Rules.{Readers, rule_failures, event_failures}

unfoldable pub alert_write_allowlist : Dict (List String)
alert_write_allowlist =
    (
      "rule_create",
      "id" ∷ "user_id" ∷ "listing_id" ∷ "product_id" ∷ "marketplace_id" ∷ "category_id"
          ∷ "country_code" ∷ "alert_type" ∷ "threshold_pct" ∷ "threshold_value" ∷ "channel"
          ∷ "channels" ∷ "webhook_url" ∷ "cooldown_minutes" ∷ "is_active" ∷ "trigger_count"
          ∷ "alert_class" ∷ [],
    )
    ∷ (
      "rule_update",
      "id" ∷ "alert_type" ∷ "threshold_pct" ∷ "threshold_value" ∷ "channel" ∷ "channels"
          ∷ "webhook_url" ∷ "cooldown_minutes" ∷ "is_active" ∷ [],
    )
    ∷ ("rule_delete", "id" ∷ [])
    ∷ ("rule_trigger", "id" ∷ "last_triggered_at" ∷ "trigger_count" ∷ [])
    ∷ (
      "event_create",
      "alert_id" ∷ "alert_class" ∷ "listing_id" ∷ "fact_price_id" ∷ "old_value" ∷ "new_value"
          ∷ "change_pct" ∷ "message" ∷ "severity" ∷ "sent_via" ∷ "delivered_at" ∷ "triggered_at"
          ∷ [],
    )
    ∷ []

-- `_KIND_TARGETS`: table and operation
unfoldable pub kind_targets : Dict (String × String)
kind_targets =
    ("rule_create", ("alerts", "insert"))
    ∷ ("rule_update", ("alerts", "update"))
    ∷ ("rule_delete", ("alerts", "delete"))
    ∷ ("rule_trigger", ("alerts", "update"))
    ∷ ("event_create", ("alert_events", "insert"))
    ∷ []

unfoldable pub target : String → String × String
target kind = or_else (get kind_targets kind) ("alerts", "insert")

unfoldable pub alert_failures : Readers → String → String → Dict Value → Result (List String)
alert_failures readers table kind fields = do
  rules ← if table == "alerts" then rule_failures readers kind fields else ok []
  events ← event_failures readers kind fields
  ok (rules ++ events)

-- `failed_rules[:1]`
abbrev pub first_rule : List String → List String
first_rule [] = []
first_rule (rule ∷ rules) = rule ∷ []

module _ (g : Gate) (readers : Readers) (source kind table operation : String)
    (fields : Dict Value) where
  unfoldable pub refuse_alert : String → List String → Decision
  refuse_alert reason rules =
      reject true source table operation reason rules fields
        (("table", text (some table)) ∷ ("kind", texts (first_rule rules)) ∷ [])

  unfoldable pub close_alert : Option SignedRecord → Decision
  close_alert none = refuse_alert "signing_unavailable" ("signing_secret_missing" ∷ [])
  close_alert (some signed_record) =
      accept (("table", text (some table)) ∷ ("kind", text (some kind)) ∷ []) signed_record

  -- on the verdict of the contract
  unfoldable pub sign_checked : Bool × List String × Option String → Result Decision
  sign_checked (passed, failed_rules, reason) =
      if not passed
      then ok (refuse_alert (or_else reason "contract_violation") failed_rules)
      else (do signed_record ← sign_fields g table operation fields; ok (close_alert signed_record))

  -- from the contract on
  unfoldable pub sign_alert : Result Decision
  sign_alert = checked_contract_subset g table fields >>= sign_checked

  unfoldable pub check_failures : List String → Result Decision
  check_failures failed =
      if not (is_empty failed) then ok (refuse_alert "alert_semantics" failed) else sign_alert

  unfoldable pub of_alert_kind : Option (List String) → Result Decision
  of_alert_kind none = ok (refuse_alert "unknown_alert_kind" (labelled "kind" (kind ∷ [])))
  of_alert_kind (some allowed) =
      let extra = disallowed_columns allowed (payload_columns [] fields) in
      if not (is_empty extra)
      then ok (refuse_alert "alert_field_not_allowed" (labelled "field" extra))
      else (do failed ← alert_failures readers table kind fields; check_failures failed)

unfoldable pub authorize_alert_write :
    Gate → Readers → String → String → Dict Value → Result Decision
authorize_alert_write g readers source kind fields =
    of_alert_kind g readers source kind (target kind).0 (target kind).1 fields
      (get alert_write_allowlist kind)
