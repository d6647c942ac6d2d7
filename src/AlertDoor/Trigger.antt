-- ===== src/AlertDoor/Trigger.antt =====
-- The write of the trigger engine that follows an alert: the `rule_trigger` payload of
-- backend/app/modules/alerts/engine.py, serialized by persist/alerts_write.py.
use imperecta.Base.{Bool, true, false, List, Option}
use imperecta.Doors.{checked_contract_subset, validate_contract_subset}
use imperecta.Firewall.Validate.Raising.{finite-not_raised}
use imperecta.AlertDoor.{sign_checked}
use imperecta.AlertDoor.Laws.{checked_subset, Returns->>=}
use imperecta.Doors.{payload_columns, validate_contract_subset, disallowed_columns}
use imperecta.Base.{
  keep, sorted, ℕ, ℤ, pos, ◌+◌, String, ◌≡◌, refl, true, false, not, ◌==◌, some, [], ◌∷◌, Dict, ok,
  Returns, arith, leb,
}
use imperecta.Payload.{Value, str, integer}
use imperecta.Signing.{signing_secret, sign}
use imperecta.Firewall.{Gate, sign_fields, signed_with, accept}
use imperecta.Contracts.{extract_locator, table_locators}
use imperecta.Doors.Contract.{MeetsContract}
use imperecta.Alerts.{Rule}
use imperecta.AlertDoor.Rules.{
  Readers, number, count_failures, event_failures, trigger_failures, rule_failures, type_failures,
  set_failures, webhook_failures, effective, channel_items, threshold_failures, cooldown_failures,
  is_truthy, read_failures, is_count, when,
}
use imperecta.AlertDoor.{
  authorize_alert_write, of_alert_kind, alert_failures, check_failures, sign_alert, close_alert,
  target, kind_targets, alert_write_allowlist,
}

unfoldable pub trigger_fields : (ℕ → String) → ℕ → Rule → Dict Value
trigger_fields isoformat now rule =
    ("id", str rule.id)
    ∷ ("last_triggered_at", str (isoformat now))
    ∷ ("trigger_count", integer (pos (rule.trigger_count + 1)))
    ∷ []

at_least_one : (n : ℕ) → ok (when (not (leb 1 (n + 1))) "trigger_count_invalid") ≡ ok []
at_least_one n = ground arith

module _ (g : Gate) (readers : Readers) (isoformat : ℕ → String) (now : ℕ) (rule : Rule)
    (reads_int : (z : ℤ) → readers.read_int (integer z) ≡ number z)
    (is_written : isoformat now == "" ≡ false) where
  no_failures :
      alert_failures readers "alerts" "rule_trigger" (trigger_fields isoformat now rule) ≡ ok []
  unfolding alert_failures rule_failures event_failures trigger_fields type_failures set_failures
      webhook_failures effective channel_items threshold_failures cooldown_failures trigger_failures
      is_truthy read_failures is_count count_failures
  no_failures =
      rw (reads_int (pos (rule.trigger_count + 1)), is_written) (at_least_one rule.trigger_count)

  checked-passes :
      (secret : String) (v : Bool × List String × Option String)
      → signing_secret g.signer ≡ some secret
      → v.0 ≡ true
      → Returns
          (λ d. d.outcome.passed ≡ true)
          (sign_checked g readers "alerts_trigger_engine" "rule_trigger" "alerts" "update"
            (trigger_fields isoformat now rule)
            v)
  unfolding sign_checked trigger_fields sign_fields extract_locator table_locators signed_with sign
      close_alert accept
  checked-passes secret (true, failed, reason) usable valid =
      rw (usable, sign, signed_with, close_alert) refl
  checked-passes secret (false, failed, reason) usable valid = absurd (cc)

  signed-passes :
      (secret : String)
      → signing_secret g.signer ≡ some secret
      → MeetsContract g "alerts" (trigger_fields isoformat now rule)
      → Returns
          (λ d. d.outcome.passed ≡ true)
          (sign_alert g readers "alerts_trigger_engine" "rule_trigger" "alerts" "update"
            (trigger_fields isoformat now rule))
  unfolding sign_alert trigger_fields
  signed-passes secret usable valid =
      let fields = trigger_fields isoformat now rule in
      Returns->>= (λ d. d.outcome.passed ≡ true) (checked_contract_subset g "alerts" fields) _ _
        (checked_subset g "alerts" fields
          (λ contract known. finite-not_raised fields contract refl))
        (checked-passes secret (validate_contract_subset g "alerts" fields) usable valid)

-- The write that follows an alert passes the alert door, whatever the count so far, once a signing
-- secret is configured, the payload meets the column contract of `alerts`, `int` gives back an
-- integer and `isoformat` is not the empty text.
pub trigger_fields_pass :
    (g : Gate) (readers : Readers) (isoformat : ℕ → String) (now : ℕ) (rule : Rule)
    (secret : String)
    → ((z : ℤ) → readers.read_int (integer z) ≡ number z)
    → isoformat now == "" ≡ false
    → signing_secret g.signer ≡ some secret
    → MeetsContract g "alerts" (trigger_fields isoformat now rule)
    → Returns
        (λ d. d.outcome.passed ≡ true)
        (authorize_alert_write g readers "alerts_trigger_engine" "rule_trigger"
          (trigger_fields isoformat now rule))
unfolding authorize_alert_write of_alert_kind check_failures target kind_targets
    alert_write_allowlist disallowed_columns sign_alert sorted validate_contract_subset keep
    payload_columns trigger_fields
trigger_fields_pass g readers isoformat now rule secret reads_int is_written usable valid =
    rw (no_failures g readers isoformat now rule reads_int is_written)
      (signed-passes g readers isoformat now rule reads_int is_written secret usable valid)
