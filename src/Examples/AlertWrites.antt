-- ===== src/Examples/AlertWrites.antt =====
-- Calls of the alert door.
use imperecta.Firewall.Validate.Raising.{finite-not_raised}
use imperecta.Base.{ℕ, ℤ, false, String}
use imperecta.Contracts.{ColumnContract}
use imperecta.Alerts.{Rule}
use imperecta.AlertDoor.Trigger.{trigger_fields, trigger_fields_pass}
use imperecta.Doors.Contract.{MeetsContract}
use imperecta.Examples.Scrapes.{usable}
use imperecta.Wire.Utf8.{utf8}
use imperecta.Wire.Prefix.{lp_string}
use imperecta.Wire.Decimal.{str_int, decimal}
use imperecta.Signing.{signing_secret, sign, dict_enc, canonical_serialize_signed_payload}
use imperecta.Rules.{is_positive}
use imperecta.Retention.{is_text}
use imperecta.Firewall.Validate.{
  numeric_raises, entry_raises, validation_raises, checked_against_contract,
  validate_against_contract, type_mismatch, tuple_fits, too_long, payload_failures, numeric_fits,
  int_digits, frac_digits, entry_failures, column_failures, bad_check, as_tuple,
}
use imperecta.Doors.{
  checked_contract_subset, validate_contract_subset, labelled, payload_columns, disallowed_columns,
}
use imperecta.Base.{
  keep, sorted, pos, ◌≡◌, refl, true, Option, none, some, List, [], ◌∷◌, Dict, Returns, get,
}
use imperecta.Payload.{str_of, is_blank, Value, str, json, integer}
use imperecta.Contracts.{extract_locator, table_locators}
use imperecta.Firewall.{signed_with, sign_fields, reject_row, reject, plain_outcome, accept, Gate}
use imperecta.Doors.Closing.{Sound}
use imperecta.AlertDoor.{
  sign_checked, sign_alert, refuse_alert, close_alert, check_failures, alert_failures,
  alert_write_allowlist, of_alert_kind, authorize_alert_write, target, kind_targets,
}
use imperecta.AlertDoor.Rules.{
  trigger_failures, threshold_failures, starts_with, repeats, read_failures, numeric_failures,
  is_zero_text, is_percent, is_https, is_count, is_cooldown, has_message, effective,
  create_failures, cooldown_failures, channels_failures, any_text, any_outside, webhook_failures,
  is_truthy, event_failures, in_set, set_failures, type_failures, rule_failures, Reading, number,
  refused, Readers, ratio, channel_items,
}
use imperecta.AlertDoor.Rules.Meaning.{IsReadable}
use imperecta.AlertDoor.Laws.{IsAlertWrite, authorize_alert_write-Sound}
use imperecta.Examples.{signer, free_text}

abbrev items_of : Value → Option (List Value)
items_of (json dumped s) = some (str "webhook" ∷ [])
items_of _ = none

abbrev int_of : Value → Reading ℤ
int_of (integer z) = number z
int_of _ = refused

abbrev count_column : ColumnContract
count_column = record {
  type = "integer";
  nullable = false;
  max_len = none;
  precision = none;
  scale = none;
  check_values = none;
}

abbrev readers : Readers
readers = record {
  list_items = items_of;
  read_float = λ v. number (ratio (pos 5) 2);
  read_int = int_of;
}

abbrev alert_gate : Gate
alert_gate = record {
  signer = signer;
  fact_table_contracts = λ table. some (
      ("id", free_text)
      ∷ ("user_id", free_text)
      ∷ ("alert_type", free_text)
      ∷ ("webhook_url", free_text)
      ∷ []);
}

abbrev rule : Dict Value
rule =
    ("id", str "r1")
    ∷ ("user_id", str "u1")
    ∷ ("alert_type", str "price_drop")
    ∷ ("webhook_url", str "https://a.example")
    ∷ []

abbrev with_webhook : Dict Value
with_webhook =
    ("channels", json "[\"webhook\"]" "['webhook']") ∷ ("cooldown_minutes", integer (pos 60)) ∷ rule

-- no channel at all: the address is not compared with one
passes_test :
    Returns
      (λ d. d.outcome.passed ≡ true)
      (authorize_alert_write alert_gate readers "alerts_write" "rule_create" rule)
unfolding authorize_alert_write of_alert_kind alert_write_allowlist disallowed_columns sorted keep
    payload_columns alert_failures target kind_targets rule_failures type_failures set_failures
    in_set event_failures check_failures is_truthy webhook_failures any_outside any_text
    channel_items channels_failures cooldown_failures create_failures effective has_message
    is_cooldown is_count is_https is_percent is_zero_text numeric_failures read_failures repeats
    starts_with threshold_failures trigger_failures close_alert refuse_alert sign_alert
    extract_locator table_locators labelled validate_contract_subset as_tuple bad_check
    column_failures entry_failures frac_digits int_digits numeric_fits payload_failures too_long
    tuple_fits type_mismatch validate_against_contract accept plain_outcome reject reject_row
    sign_fields signed_with is_blank str_of is_text is_positive canonical_serialize_signed_payload
    dict_enc sign signing_secret decimal str_int lp_string utf8 checked_contract_subset
    checked_against_contract validation_raises entry_raises numeric_raises sign_checked
passes_test = refl

with_webhook_readable : IsReadable readers "rule_create" with_webhook
unfolding channel_items
with_webhook_readable = record {
  alert_type = refl;
  channel = refl;
  channels = refl;
  severity = refl;
  sent_via = refl;
  threshold_pct = refl;
  cooldown_minutes = refl;
  trigger_count = refl;
  old_value = refl;
  new_value = refl;
  change_pct = refl;
}

located : get table_locators (target "rule_create").0 ≡ some ("id" ∷ [])
unfolding table_locators target kind_targets
located = refl

authorize_alert_write-Sound_example :
    Returns
      (Sound alert_gate true "alerts_write"
        (target "rule_create").0
        (target "rule_create").1
        with_webhook
        (IsAlertWrite readers "rule_create" with_webhook alert_gate (target "rule_create").0))
      (authorize_alert_write alert_gate readers "alerts_write" "rule_create" with_webhook)
authorize_alert_write-Sound_example =
    authorize_alert_write-Sound alert_gate readers "alerts_write" "rule_create" with_webhook
      ("id" ∷ []) located refl with_webhook_readable
      (λ contract known. finite-not_raised with_webhook contract refl)

abbrev fired : Rule
fired = record {
  id = "r1";
  alert_type = "price_drop";
  threshold_pct = some (pos 10);
  channels = [];
  created_at = 100;
  last_triggered_at = none;
  cooldown_minutes = 60;
  trigger_count = 2;
}

abbrev written : ℕ → String
written time = "2026-01-01"

fired-MeetsContract : MeetsContract alert_gate "alerts" (trigger_fields written 600 fired)
unfolding trigger_fields validate_contract_subset validate_against_contract payload_failures
    entry_failures column_failures
fired-MeetsContract = refl

trigger_fields_pass_example :
    Returns
      (λ d. d.outcome.passed ≡ true)
      (authorize_alert_write alert_gate readers "alerts_trigger_engine" "rule_trigger"
        (trigger_fields written 600 fired))
trigger_fields_pass_example =
    trigger_fields_pass alert_gate readers written 600 fired "secret" (λ z. refl) refl usable
      fired-MeetsContract
