-- ===== src/AlertDoor/Rules.antt =====
-- `_semantic_failures` and `_event_semantic_failures` of
-- backend/app/modules/data_firewall/alert_door.py: the rules that a payload breaks. A lookup of a
-- list or of a dictionary in a set raises TypeError.
pub mod Meaning
use Prim.Native.Char.{code}
use Prim.Native.String as S
use Prim.Native.String.{◌++◌ as ◌++ₛ◌}
use imperecta.Base.{
  ℕ, ◌*◌, leb, ltb, ◌=?◌, ℤ, pos, negsuc, String, Bool, true, false, not, ◌&&◌, ◌||◌, ◌==◌, Option,
  none, some, List, [], ◌∷◌, ◌++◌, elem, all, Dict, Result, ok, value_error, type_error, ◌>>=◌,
  if◌then◌else◌,
}
use imperecta.Payload.{
  Value, null, boolean, integer, decimal_number, float, not_finite, datetime, date, uuid, str, json,
  read, is_null, is_blank,
}
use imperecta.Retention.{is_text}

-- a float: a fraction, or an infinity or nan
pub data Number : Type 0 where
  ratio : ℤ → ℕ → Number
  nan_or_infinity : Number

-- what a conversion answers: a number, a TypeError or ValueError, or an OverflowError
pub data Reading (A : Type 0) : Type 0 where
  number : A → Reading A
  refused : Reading A
  overflow : Reading A

-- `list_items`: the items of a value that is a list; `read_float`, `read_int`: `float(value)` and
-- `int(value)`
pub record Readers : Type 0 where
  pub list_items : Value → Option (List Value)
  pub read_float : Value → Reading Number
  pub read_int : Value → Reading ℤ

abbrev pub alert_types : List String
alert_types = "price_drop" ∷ "price_rise" ∷ "availability" ∷ []

abbrev pub alert_channels : List String
alert_channels = "email" ∷ "telegram" ∷ "webhook" ∷ "in_app" ∷ []

abbrev pub event_severities : List String
event_severities = "low" ∷ "medium" ∷ "high" ∷ "critical" ∷ []

-- whether the written digits of a `Decimal`, without its exponent, are all 0
unfoldable pub is_zero_text : String → Bool
is_zero_text S.String.[] = true
is_zero_text (S.String.◌∷◌ c s) =
    let rest = is_zero_text s in
    if code c =? 69 then true else (code c =? 45 || code c =? 46 || code c =? 48) && rest

-- `bool(value)`
unfoldable pub is_truthy : Value → Bool
is_truthy null = false
is_truthy (boolean b) = b
is_truthy (integer (pos n)) = ltb 0 n
is_truthy (integer (negsuc n)) = true
is_truthy (decimal_number s) = not (is_zero_text s)
is_truthy (float f) = not (all (λ digit. digit =? 0) f.decimal.digits)
is_truthy (not_finite s) = true
is_truthy (datetime iso s) = true
is_truthy (date iso) = true
is_truthy (uuid s) = true
is_truthy (str s) = not (s == "")
is_truthy (json dumped s) = not (elem dumped ("[]" ∷ "{}" ∷ []))

-- `value in allowed`, for a set of texts
unfoldable pub in_set : List String → Value → Result Bool
in_set allowed (str s) = ok (elem s allowed)
in_set allowed (json dumped s) = type_error "unhashable type"
in_set allowed _ = ok false

-- `if test: failed.append(rule)`
abbrev pub when : Bool → String → List String
when true rule = rule ∷ []
when false rule = []

-- a value that is given is to be in the set
unfoldable pub set_failures : List String → String → Value → Result (List String)
set_failures allowed rule value =
    if is_null value then ok [] else (do known ← in_set allowed value; ok (when (not known) rule))

unfoldable pub any_outside : List Value → Result Bool
any_outside [] = ok false
any_outside (name ∷ names) =
    let later = any_outside names in
    do known ← in_set alert_channels name; if known then later else ok true

unfoldable pub any_text : String → List Value → Bool
any_text s [] = false
any_text s (value ∷ values) = is_text value s || any_text s values

-- `len(set(channels)) != len(channels)`, for texts
unfoldable pub repeats : List Value → Bool
repeats [] = false
repeats (str s ∷ values) = any_text s values || repeats values
repeats (value ∷ values) = repeats values

unfoldable pub channels_failures : Option (List Value) → Result (List String)
channels_failures none = ok ("channels_invalid" ∷ [])
channels_failures (some []) = ok ("channels_invalid" ∷ [])
channels_failures (some (name ∷ names)) = do
  outside ← any_outside (name ∷ names)
  ok (
      if outside
      then "channels_value_invalid" ∷ []
      else when (repeats (name ∷ names)) "channels_duplicate")

-- the channels that count
unfoldable pub effective : Option (List Value) → Value → Option (List Value)
effective (some (name ∷ names)) channel = some (name ∷ names)
effective _ channel = if is_null channel then none else some (channel ∷ [])

unfoldable pub starts_with : String → String → Bool
starts_with S.String.[] s = true
starts_with (S.String.◌∷◌ c p) S.String.[] = false
starts_with (S.String.◌∷◌ c p) (S.String.◌∷◌ b s) = code c =? code b && starts_with p s

unfoldable pub is_https : Value → Bool
is_https (str s) = starts_with "https://" s
is_https _ = false

unfoldable pub webhook_failures : Option (List Value) → Value → List String
webhook_failures none webhook_url = []
webhook_failures (some names) webhook_url =
    if any_text "webhook" names
    then when (not (is_https webhook_url)) "webhook_url_https_required"
    else when (not (is_null webhook_url)) "webhook_url_only_for_webhook_channel"

-- `0 < value <= 100`
unfoldable pub is_percent : Number → Bool
is_percent (ratio (pos n) d) = ltb 0 n && leb n (100 * d)
is_percent (ratio (negsuc n) d) = false
is_percent nan_or_infinity = false

-- `not (minutes < 0 or minutes > 10_080)`
unfoldable pub is_cooldown : ℤ → Bool
is_cooldown (pos n) = leb n 10080
is_cooldown (negsuc n) = false

-- `not int(count) < 1`
unfoldable pub is_count : ℤ → Bool
is_count (pos n) = leb 1 n
is_count (negsuc n) = false

-- a value that is read is to pass a test; an OverflowError is not caught
unfoldable pub read_failures :
    {A : Type 0} → Reading A → (A → Bool) → String → String → Result (List String)
read_failures refused fits invalid out_of_range = ok (invalid ∷ [])
read_failures overflow fits invalid out_of_range = value_error "OverflowError"
read_failures (number a) fits invalid out_of_range = ok (when (not (fits a)) out_of_range)

-- a check of a value that may be missing
abbrev pub given : Value → Result (List String) → Result (List String)
given value failures = if is_null value then ok [] else failures

module _ (readers : Readers) (kind : String) (fields : Dict Value) where
  unfoldable pub channel_items : Option (List Value)
  channel_items =
      let channels = read fields "channels" in
      if is_null channels then none else readers.list_items channels

  unfoldable pub type_failures : Result (List String)
  type_failures =
      let alert_type = read fields "alert_type" in
      if is_null alert_type
      then ok (when (kind == "rule_create") "alert_type_required")
      else set_failures alert_types "alert_type_invalid" alert_type

  unfoldable pub threshold_failures : Result (List String)
  threshold_failures =
      let threshold_pct = read fields "threshold_pct" in
      given threshold_pct (
        read_failures (readers.read_float threshold_pct) is_percent "threshold_pct_invalid"
          "threshold_pct_out_of_range")

  unfoldable pub cooldown_failures : Result (List String)
  cooldown_failures =
      let cooldown = read fields "cooldown_minutes" in
      given cooldown (
        read_failures (readers.read_int cooldown) is_cooldown "cooldown_invalid"
          "cooldown_out_of_range")

  -- `_semantic_failures`
  unfoldable pub rule_failures : Result (List String)
  rule_failures = do
    of_type ← type_failures
    of_channel ← set_failures alert_channels "channel_invalid" (read fields "channel")
    of_channels ←
        if is_null (read fields "channels") then ok [] else channels_failures channel_items
    of_threshold ← threshold_failures
    of_cooldown ← cooldown_failures
    ok (
        when (kind == "rule_create" && not (is_truthy (read fields "user_id"))) "user_id_required"
        ++ of_type
        ++ of_channel
        ++ of_channels
        ++ webhook_failures (effective channel_items (read fields "channel"))
            (read fields "webhook_url")
        ++ of_threshold
        ++ of_cooldown)

  unfoldable pub numeric_failures : String → Result (List String)
  numeric_failures key =
      given (read fields key) (
        read_failures (readers.read_float (read fields key)) (λ value. true) (key ++ₛ "_invalid")
          "")

  unfoldable pub has_message : Value → Bool
  has_message (str s) = not (is_blank s)
  has_message _ = false

  unfoldable pub create_failures : Result (List String)
  create_failures = do
    of_severity ← set_failures event_severities "severity_invalid" (read fields "severity")
    of_sent_via ← set_failures alert_channels "sent_via_invalid" (read fields "sent_via")
    of_old ← numeric_failures "old_value"
    of_new ← numeric_failures "new_value"
    of_change ← numeric_failures "change_pct"
    ok (
        when (not (is_truthy (read fields "alert_id"))) "alert_id_required"
        ++ when (not (has_message (read fields "message"))) "message_required"
        ++ of_severity
        ++ of_sent_via
        ++ of_old
        ++ of_new
        ++ of_change)

  unfoldable pub count_failures : Result (List String)
  count_failures =
      let count = read fields "trigger_count" in
      if is_null count
      then ok ("trigger_count_invalid" ∷ [])
      else read_failures (readers.read_int count) is_count "trigger_count_invalid"
          "trigger_count_invalid"

  unfoldable pub trigger_failures : Result (List String)
  trigger_failures = do
    of_count ← count_failures
    ok (
        when (not (is_truthy (read fields "last_triggered_at"))) "last_triggered_at_required"
        ++ of_count)

  -- `_event_semantic_failures`
  unfoldable pub event_failures : Result (List String)
  event_failures =
      if kind == "event_create"
      then create_failures
      else if kind == "rule_trigger"
      then trigger_failures
      else ok []
