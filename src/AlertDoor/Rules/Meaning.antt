-- ===== src/AlertDoor/Rules/Meaning.antt =====
-- What the semantic checks of the alert door mean, and that they return.
use imperecta.Base.{
  ℤ, String, ◌≡◌, ◌⊎◌, inl, inr, refl, Bool, true, false, not, ◌&&◌, ◌==◌, Option, none, some, List,
  [], ◌∷◌, ◌++◌, all, is_empty, Dict, Result, ok, value_error, type_error, ◌>>=◌, >>=-eq-ok,
  if◌then◌else◌, arith, Bool-cases, if-Has,
}
use imperecta.Payload.{Value, str, json, read, is_null}
use imperecta.AlertDoor.Rules.{
  Reading, number, refused, overflow, count_failures, trigger_failures, numeric_failures, Number,
  Readers, alert_types, alert_channels, event_severities, is_truthy, in_set, when, set_failures,
  any_outside, any_text, channels_failures, effective, is_https, webhook_failures, is_percent,
  is_cooldown, read_failures, given, channel_items, type_failures, threshold_failures,
  cooldown_failures, rule_failures, create_failures, event_failures,
}

pub is_empty-append :
    (xs ys : List String) → is_empty (xs ++ ys) ≡ true → (is_empty xs ≡ true) × (is_empty ys ≡ true)
is_empty-append [] ys h = (refl, h)
is_empty-append (x ∷ xs) ys h = absurd (cc)

pub when_empty : (b : Bool) (rule : String) → is_empty (when (not b) rule) ≡ true → b ≡ true
when_empty true rule h = refl
when_empty false rule h = absurd (cc)

when_full : (b : Bool) (rule : String) → is_empty (when b rule) ≡ true → b ≡ false
when_full true rule h = absurd (cc)
when_full false rule h = refl

-- the list that a call returns
pub ok_empty : (xs ys : List String) → ok xs ≡ ok ys → is_empty ys ≡ true → is_empty xs ≡ true
ok_empty xs ys h e = ground arith

read_failures_empty :
    {A : Type 0} (r : Reading A) (fits : A → Bool) (invalid out_of_range : String)
    (failed : List String)
    → read_failures r fits invalid out_of_range ≡ ok failed
    → is_empty failed ≡ true
    → (a : A) × (r ≡ number a) × (fits a ≡ true)
unfolding read_failures
read_failures_empty refused fits invalid out_of_range failed e h =
    absurd (cc (ok_empty (invalid ∷ []) failed e h))
read_failures_empty overflow fits invalid out_of_range failed e h = absurd (cc)
read_failures_empty (number a) fits invalid out_of_range failed e h =
    (a, refl, when_empty (fits a) out_of_range (ok_empty _ failed e h))

given_empty :
    (value : Value) (failures : Result (List String)) (failed : List String)
    → given value failures ≡ ok failed
    → is_null value ≡ false
    → failures ≡ ok failed
given_empty value failures failed h e = rw e at h

-- With the channel `webhook` the address is given and begins with https, and with other channels
-- only it is missing.
abbrev pub WebhookFits : Option (List Value) → Value → Type 0
WebhookFits none webhook_url = Unit
WebhookFits (some names) webhook_url =
    ((any_text "webhook" names ≡ true) × (is_https webhook_url ≡ true))
    ⊎ ((any_text "webhook" names ≡ false) × (is_null webhook_url ≡ true))

webhook_failures_empty :
    (o : Option (List Value)) (webhook_url : Value)
    → is_empty (webhook_failures o webhook_url) ≡ true
    → WebhookFits o webhook_url
unfolding webhook_failures
webhook_failures_empty none webhook_url h = tt
webhook_failures_empty (some names) webhook_url h = elim (Bool-cases (any_text "webhook" names)) [
  | inl e ↦
      let h' : is_empty (when (not (is_https webhook_url)) "webhook_url_https_required") ≡ true =
        ground arith in
      inl (e, when_empty (is_https webhook_url) _ h')
  | inr e ↦ inr (e, ground arith)
]

-- a value that can be looked up in a set
abbrev pub is_hashable : Value → Bool
is_hashable (json dumped s) = false
is_hashable _ = true

-- the call returns
abbrev pub IsTotal : {A : Type 0} → Result A → Type 0
IsTotal {A} m = (a : A) × (m ≡ ok a)

pub >>=-IsTotal :
    {A B : Type 0} (call : Result A) (next : A → Result B)
    → IsTotal call
    → ((a : A) → IsTotal (next a))
    → IsTotal (call >>= next)
>>=-IsTotal (ok a) next h later = later a
>>=-IsTotal (value_error m) next (a, e) later = absurd (cc)
>>=-IsTotal (type_error m) next (a, e) later = absurd (cc)

in_set-IsTotal :
    (allowed : List String) (v : Value) → is_hashable v ≡ true → IsTotal (in_set allowed v)
unfolding in_set
in_set-IsTotal allowed (json dumped s) h = absurd (cc)
in_set-IsTotal allowed (str s) h = (_, refl)
in_set-IsTotal allowed _ h = (false, refl)

set_failures-IsTotal :
    (allowed : List String) (rule : String) (v : Value)
    → is_hashable v ≡ true
    → IsTotal (set_failures allowed rule v)
unfolding set_failures
set_failures-IsTotal allowed rule v h =
    if-Has IsTotal (is_null v) ([], refl)
      (>>=-IsTotal (in_set allowed v) _ (in_set-IsTotal allowed v h) λ known. (_, refl))

any_outside-IsTotal :
    (names : List Value) → all is_hashable names ≡ true → IsTotal (any_outside names)
unfolding any_outside
any_outside-IsTotal [] h = (false, refl)
any_outside-IsTotal (name ∷ names) h =
    let here : is_hashable name ≡ true = ground arith in
    let later = any_outside-IsTotal names (ground arith) in
    >>=-IsTotal (in_set alert_channels name) _ (in_set-IsTotal alert_channels name here)
      λ known. if-Has IsTotal known later (true, refl)

abbrev pub all_hashable : Option (List Value) → Bool
all_hashable none = true
all_hashable (some names) = all is_hashable names

channels_failures-IsTotal :
    (o : Option (List Value)) → all_hashable o ≡ true → IsTotal (channels_failures o)
unfolding channels_failures
channels_failures-IsTotal none h = (_, refl)
channels_failures-IsTotal (some []) h = (_, refl)
channels_failures-IsTotal (some (name ∷ names)) h =
    >>=-IsTotal (any_outside (name ∷ names)) _ (any_outside-IsTotal (name ∷ names) h)
      λ outside. (_, refl)

abbrev pub no_overflow : {A : Type 0} → Reading A → Bool
no_overflow overflow = false
no_overflow _ = true

read_failures-IsTotal :
    {A : Type 0} (r : Reading A) (fits : A → Bool) (invalid out_of_range : String)
    → no_overflow r ≡ true
    → IsTotal (read_failures r fits invalid out_of_range)
unfolding read_failures
read_failures-IsTotal refused fits invalid out_of_range h = (_, refl)
read_failures-IsTotal overflow fits invalid out_of_range h = absurd (cc)
read_failures-IsTotal (number a) fits invalid out_of_range h = (_, refl)

given-IsTotal :
    (value : Value) (failures : Result (List String))
    → IsTotal failures
    → IsTotal (given value failures)
given-IsTotal value failures h = if-Has IsTotal (is_null value) ([], refl) h

module _ (readers : Readers) (kind : String) (fields : Dict Value) where
  -- Nothing that the door looks up in a set is a list or a dictionary, and no conversion of a number
  -- raises OverflowError.
  pub record IsReadable : Type 0 where
    pub alert_type : is_hashable (read fields "alert_type") ≡ true
    pub channel : is_hashable (read fields "channel") ≡ true
    pub channels : all_hashable (channel_items readers kind fields) ≡ true
    pub severity : is_hashable (read fields "severity") ≡ true
    pub sent_via : is_hashable (read fields "sent_via") ≡ true
    pub threshold_pct : no_overflow (readers.read_float (read fields "threshold_pct")) ≡ true
    pub cooldown_minutes : no_overflow (readers.read_int (read fields "cooldown_minutes")) ≡ true
    pub trigger_count : no_overflow (readers.read_int (read fields "trigger_count")) ≡ true
    pub old_value : no_overflow (readers.read_float (read fields "old_value")) ≡ true
    pub new_value : no_overflow (readers.read_float (read fields "new_value")) ≡ true
    pub change_pct : no_overflow (readers.read_float (read fields "change_pct")) ≡ true

  threshold_failures-IsTotal : IsReadable → IsTotal (threshold_failures readers kind fields)
  unfolding threshold_failures
  threshold_failures-IsTotal h = given-IsTotal (read fields "threshold_pct") _ (
      read_failures-IsTotal (readers.read_float (read fields "threshold_pct")) is_percent
        "threshold_pct_invalid" "threshold_pct_out_of_range" h.threshold_pct)

  cooldown_failures-IsTotal : IsReadable → IsTotal (cooldown_failures readers kind fields)
  unfolding cooldown_failures
  cooldown_failures-IsTotal h = given-IsTotal (read fields "cooldown_minutes") _ (
      read_failures-IsTotal (readers.read_int (read fields "cooldown_minutes")) is_cooldown
        "cooldown_invalid" "cooldown_out_of_range" h.cooldown_minutes)

  numeric_failures-IsTotal :
      (key : String)
      → no_overflow (readers.read_float (read fields key)) ≡ true
      → IsTotal (numeric_failures readers kind fields key)
  unfolding numeric_failures
  numeric_failures-IsTotal key h =
      given-IsTotal (read fields key) _
        (read_failures-IsTotal (readers.read_float (read fields key)) (λ value. true) _ "" h)

  pub rule_failures-IsTotal : IsReadable → IsTotal (rule_failures readers kind fields)
  unfolding rule_failures type_failures
  rule_failures-IsTotal h =
      >>=-IsTotal _ _
        (if-Has IsTotal (is_null (read fields "alert_type")) (_, refl)
          (set_failures-IsTotal alert_types _ _ h.alert_type))
        λ of_type. >>=-IsTotal _ _ (set_failures-IsTotal alert_channels _ _ h.channel) λ of_channel.
          >>=-IsTotal _ _
            (if-Has IsTotal (is_null (read fields "channels")) ([], refl)
              (channels_failures-IsTotal _ h.channels))
            λ of_channels.
              >>=-IsTotal _ _ (threshold_failures-IsTotal h) λ of_threshold.
                >>=-IsTotal _ _ (cooldown_failures-IsTotal h) λ of_cooldown. (_, refl)

  create_failures-IsTotal : IsReadable → IsTotal (create_failures readers kind fields)
  unfolding create_failures
  create_failures-IsTotal h =
      >>=-IsTotal _ _ (set_failures-IsTotal event_severities _ _ h.severity) λ of_severity.
        >>=-IsTotal _ _ (set_failures-IsTotal alert_channels _ _ h.sent_via) λ of_sent_via.
          >>=-IsTotal _ _ (numeric_failures-IsTotal "old_value" h.old_value) λ of_old.
            >>=-IsTotal _ _ (numeric_failures-IsTotal "new_value" h.new_value) λ of_new.
              >>=-IsTotal _ _ (numeric_failures-IsTotal "change_pct" h.change_pct)
                λ of_change. (_, refl)

  trigger_failures-IsTotal : IsReadable → IsTotal (trigger_failures readers kind fields)
  unfolding trigger_failures count_failures
  trigger_failures-IsTotal h =
      >>=-IsTotal _ _
        (if-Has IsTotal (is_null (read fields "trigger_count")) (_, refl)
          (read_failures-IsTotal _ _ _ _ h.trigger_count))
        λ of_count. (_, refl)

  pub event_failures-IsTotal : IsReadable → IsTotal (event_failures readers kind fields)
  unfolding event_failures
  event_failures-IsTotal h =
      if-Has IsTotal (kind == "event_create") (create_failures-IsTotal h)
        (if-Has IsTotal (kind == "rule_trigger") (trigger_failures-IsTotal h) (_, refl))

  -- The rules of an alert rule: a new one has an owner, the webhook fits the channels, the threshold
  -- is a percentage above 0 and the cooldown a week at most.
  pub record MeetsRules : Type 0 where
    pub owned : (kind == "rule_create" && not (is_truthy (read fields "user_id"))) ≡ false
    pub webhook :
        WebhookFits
          (effective (channel_items readers kind fields) (read fields "channel"))
          (read fields "webhook_url")
    pub threshold :
        is_null (read fields "threshold_pct") ≡ false
        → (n : Number) × (readers.read_float (read fields "threshold_pct") ≡ number n)
          × (is_percent n ≡ true)
    pub cooldown :
        is_null (read fields "cooldown_minutes") ≡ false
        → (z : ℤ) × (readers.read_int (read fields "cooldown_minutes") ≡ number z)
          × (is_cooldown z ≡ true)

  pub rule_failures-MeetsRules :
      (failed : List String)
      → rule_failures readers kind fields ≡ ok failed
      → is_empty failed ≡ true
      → MeetsRules
  unfolding rule_failures threshold_failures cooldown_failures
  rule_failures-MeetsRules failed h none_failed =
      let (of_type, _, h1) = >>=-eq-ok (type_failures readers kind fields) _ h in
      let (of_channel, _, h2) =
        >>=-eq-ok (set_failures alert_channels "channel_invalid" (read fields "channel")) _ h1 in
      let (of_channels, _, h3) =
        >>=-eq-ok
          (if is_null (read fields "channels")
            then ok []
            else channels_failures (channel_items readers kind fields))
          _ h2 in
      let (of_threshold, t, h4) = >>=-eq-ok (threshold_failures readers kind fields) _ h3 in
      let (of_cooldown, c, h5) = >>=-eq-ok (cooldown_failures readers kind fields) _ h4 in
      let (r1, e7) = is_empty-append _ of_cooldown (ok_empty _ failed h5 none_failed) in
      let (r2, e6) = is_empty-append _ of_threshold r1 in
      let (r3, e5) =
        is_empty-append _
          (webhook_failures (effective (channel_items readers kind fields) (read fields "channel"))
            (read fields "webhook_url"))
          r2 in
      let (r4, _) = is_empty-append _ of_channels r3 in
      let (r5, _) = is_empty-append _ of_channel r4 in
      let (e1, _) = is_empty-append _ of_type r5 in
      record {
        owned = when_full _ "user_id_required" e1;
        webhook = webhook_failures_empty _ _ e5;
        threshold = λ given.
            read_failures_empty _ _ _ _ of_threshold (given_empty _ _ of_threshold t given) e6;
        cooldown = λ given.
            read_failures_empty _ _ _ _ of_cooldown (given_empty _ _ of_cooldown c given) e7;
      }
