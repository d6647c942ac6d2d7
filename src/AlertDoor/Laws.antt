-- ===== src/AlertDoor/Laws.antt =====
-- What the alert door lets through.
use imperecta.Base.{Bool, false}
use imperecta.Contracts.{ColumnContract}
use imperecta.Doors.{checked_contract_subset, validate_contract_subset}
use imperecta.Firewall.Validate.{validation_raises}
use imperecta.Firewall.Validate.Raising.{checked-not_raised}
use imperecta.AlertDoor.{sign_checked}
use imperecta.Base.{
  String, ◌≡◌, refl, sym, true, not, ◌==◌, Option, none, some, List, [], all, is_empty, Dict, get,
  has, Result, ok, ◌>>=◌, >>=-eq-ok, Returns, if_rule, if-Has, Option-cases, not-false, inl, inr,
  if◌then◌else◌,
}
use mathlib.Core.Path.{subst}
use imperecta.Payload.{Value, read}
use imperecta.Signing.{SignedRecord}
use imperecta.Contracts.{table_locators, extract_locator_total}
use imperecta.Firewall.{Gate, Decision, sign_fields, signed_with}
use imperecta.Firewall.Decided.{sign_fields-IsSigned, accept-Decided}
use imperecta.Doors.Columns.{OnlyAllowed, disallowed-OnlyAllowed}
use imperecta.Doors.Closing.{Sound, reject-Sound}
use imperecta.Doors.Contract.{MeetsContract}
use imperecta.AlertDoor.Rules.{
  Readers, is_truthy, has_message, set_failures, numeric_failures, create_failures, rule_failures,
  event_failures, event_severities, alert_channels, when,
}
use imperecta.AlertDoor.Rules.Meaning.{
  IsTotal, >>=-IsTotal, IsReadable, MeetsRules, rule_failures-IsTotal, event_failures-IsTotal,
  rule_failures-MeetsRules, is_empty-append, when_empty, ok_empty,
}
use imperecta.AlertDoor.{
  alert_write_allowlist, target, alert_failures, refuse_alert, close_alert, sign_alert,
  sign_checked, check_failures, of_alert_kind, authorize_alert_write,
}

-- A call that returns goes on with what it returned.
pub Returns->>= :
    {A : Type 0} {B : Type 0} (P : B → Type 0) (call : Result A) (next : A → Result B) (a : A)
    → call ≡ ok a
    → Returns P (next a)
    → Returns P (call >>= next)
Returns->>= P call next a e h = subst (λ c. Returns P (c >>= next)) (sym e) h

module _ (readers : Readers) (kind : String) (fields : Dict Value) where
  -- A new event belongs to an alert and has a message.
  create_failures_empty :
      (failed : List String)
      → create_failures readers kind fields ≡ ok failed
      → is_empty failed ≡ true
      → (is_truthy (read fields "alert_id") ≡ true)
        × (has_message readers kind fields (read fields "message") ≡ true)
  unfolding create_failures
  create_failures_empty failed h none_failed =
      let (of_severity, _, h1) =
        >>=-eq-ok (set_failures event_severities "severity_invalid" (read fields "severity")) _ h in
      let (of_sent_via, _, h2) =
        >>=-eq-ok (set_failures alert_channels "sent_via_invalid" (read fields "sent_via")) _ h1 in
      let (of_old, _, h3) = >>=-eq-ok (numeric_failures readers kind fields "old_value") _ h2 in
      let (of_new, _, h4) = >>=-eq-ok (numeric_failures readers kind fields "new_value") _ h3 in
      let (of_change, _, h5) = >>=-eq-ok (numeric_failures readers kind fields "change_pct") _ h4 in
      let (r1, _) = is_empty-append _ of_change (ok_empty _ failed h5 none_failed) in
      let (r2, _) = is_empty-append _ of_new r1 in
      let (r3, _) = is_empty-append _ of_old r2 in
      let (r4, _) = is_empty-append _ of_sent_via r3 in
      let (r5, _) = is_empty-append _ of_severity r4 in
      let (e1, e2) =
        is_empty-append _
          (when (not (has_message readers kind fields (read fields "message"))) "message_required")
          r5 in
      (
        when_empty (is_truthy (read fields "alert_id")) "alert_id_required" e1,
        when_empty (has_message readers kind fields (read fields "message")) "message_required" e2,
      )

  -- The rules of the table and of the kind.
  pub record MeetsSemantics (table : String) : Type 0 where
    pub rules : table == "alerts" ≡ true → MeetsRules readers kind fields
    pub event :
        kind == "event_create" ≡ true
        → (is_truthy (read fields "alert_id") ≡ true)
          × (has_message readers kind fields (read fields "message") ≡ true)

  alert_failures-MeetsSemantics :
      (table : String) (failed : List String)
      → alert_failures readers table kind fields ≡ ok failed
      → is_empty failed ≡ true
      → MeetsSemantics table
  unfolding alert_failures event_failures
  alert_failures-MeetsSemantics table failed h none_failed =
      let (of_rules, hr, h1) =
        >>=-eq-ok (if table == "alerts" then rule_failures readers kind fields else ok []) _ h in
      let (of_events, he, h2) = >>=-eq-ok (event_failures readers kind fields) _ h1 in
      let (er, ee) = is_empty-append of_rules of_events (ok_empty _ failed h2 none_failed) in
      record {
        rules =
            λ is_rule. rule_failures-MeetsRules readers kind fields of_rules (rw is_rule at hr) er;
        event = λ is_event. create_failures_empty of_events (rw is_event at he) ee;
      }

  alert_failures-IsTotal :
      (table : String)
      → IsReadable readers kind fields
      → IsTotal (alert_failures readers table kind fields)
  unfolding alert_failures
  alert_failures-IsTotal table h =
      >>=-IsTotal _ _
        (if-Has IsTotal (table == "alerts") (rule_failures-IsTotal readers kind fields h)
          ([], refl))
        λ of_rules.
          >>=-IsTotal _ _ (event_failures-IsTotal readers kind fields h) λ of_events. (_, refl)

  -- An alert write that passes: its kind is known, all its columns are of the allowlist of the kind,
  -- and it meets the semantic rules and the column contract.
  pub record IsAlertWrite (g : Gate) (table : String) : Type 0 where
    pub allowed : List String
    pub known_kind : get alert_write_allowlist kind ≡ some allowed
    pub only_allowed : OnlyAllowed [] allowed fields
    pub semantics : MeetsSemantics table
    pub contract : MeetsContract g table fields

-- No NUMERIC column of the payload holds nan or an infinity.
abbrev pub IsNumeric : Gate → String → Dict Value → Type 0
IsNumeric g table fields =
    (contract : Dict ColumnContract)
    → g.fact_table_contracts table ≡ some contract
    → validation_raises fields contract ≡ false

pub checked_subset :
    (g : Gate) (table : String) (fields : Dict Value)
    → IsNumeric g table fields
    → checked_contract_subset g table fields ≡ ok (validate_contract_subset g table fields)
unfolding checked_contract_subset validate_contract_subset
checked_subset g table fields numeric = elim (Option-cases (g.fact_table_contracts table)) [
  | inl e ↦ rw (e, checked_contract_subset, validate_contract_subset) refl
  | inr (contract, e) ↦
      rw (e, checked_contract_subset, validate_contract_subset)
        (checked-not_raised fields contract (numeric contract e))
]

module _ (g : Gate) (readers : Readers) (source kind table operation : String) (fields : Dict Value)
    (locator_keys : List String) (known_locator : get table_locators table ≡ some locator_keys)
    (located : all (has fields) locator_keys ≡ true) where
  abbrev SoundAlert : Decision → Type 0
  SoundAlert = Sound g true source table operation fields (IsAlertWrite readers kind fields g table)

  refuse_alert-Sound :
      (reason : String) (rules : List String)
      → SoundAlert (refuse_alert g readers source kind table operation fields reason rules)
  unfolding refuse_alert
  refuse_alert-Sound reason rules =
      reject-Sound g true source table operation fields _ reason rules _

  close_alert-Sound :
      (o : Option SignedRecord)
      → sign_fields g table operation fields ≡ ok o
      → IsAlertWrite readers kind fields g table
      → SoundAlert (close_alert g readers source kind table operation fields o)
  unfolding close_alert
  close_alert-Sound none h x = refuse_alert-Sound _ _
  close_alert-Sound (some r) h x =
      elim (accept-Decided g true source table operation fields _ r
        (sign_fields-IsSigned g table operation fields r h)) [
          | inl accepted ↦ inl (accepted, x)
          | inr rejected ↦ inr rejected
        ]

  sign_checked-Sound :
      (v : Bool × List String × Option String)
      → (v.0 ≡ true → IsAlertWrite readers kind fields g table)
      → Returns SoundAlert (sign_checked g readers source kind table operation fields v)
  unfolding sign_checked sign_fields
  sign_checked-Sound (passed, failed, reason) permitted =
      let (locator, e) = extract_locator_total table fields locator_keys known_locator located in
      let signed : sign_fields g table operation fields
          ≡ ok (signed_with g table operation fields locator) =
        rw (e, sign_fields) refl in
      if_rule (Returns SoundAlert) _ _ _ (λ _. refuse_alert-Sound _ _)
        λ valid.
          Returns->>= SoundAlert (sign_fields g table operation fields) _ _ signed
            (close_alert-Sound _ signed (permitted (not-false valid)))

  sign_alert-Sound :
      checked_contract_subset g table fields ≡ ok (validate_contract_subset g table fields)
      → (MeetsContract g table fields → IsAlertWrite readers kind fields g table)
      → Returns SoundAlert (sign_alert g readers source kind table operation fields)
  unfolding sign_alert
  sign_alert-Sound checked permitted =
      Returns->>= SoundAlert (checked_contract_subset g table fields) _ _ checked
        (sign_checked-Sound (validate_contract_subset g table fields) permitted)

  of_alert_kind-Sound :
      (o : Option (List String))
      → get alert_write_allowlist kind ≡ o
      → IsReadable readers kind fields
      → checked_contract_subset g table fields ≡ ok (validate_contract_subset g table fields)
      → Returns SoundAlert (of_alert_kind g readers source kind table operation fields o)
  unfolding of_alert_kind check_failures
  of_alert_kind-Sound none known h checked = refuse_alert-Sound _ _
  of_alert_kind-Sound (some allowed) known h checked =
      let (failed, e) = alert_failures-IsTotal readers kind fields table h in
      if_rule (Returns SoundAlert) _ _ _ (λ _. refuse_alert-Sound _ _)
        λ only. Returns->>= SoundAlert (alert_failures readers table kind fields) _ failed e (
          if_rule (Returns SoundAlert) _ _ _ (λ _. refuse_alert-Sound _ _)
            λ no_failures. sign_alert-Sound checked λ contract. record {
              allowed = allowed;
              known_kind = known;
              only_allowed = disallowed-OnlyAllowed [] allowed fields (not-false only);
              semantics =
                  alert_failures-MeetsSemantics readers kind fields table failed e
                    (not-false no_failures);
              contract = contract;
            })

-- With the locator columns of its table in the payload, no list or dictionary where the door looks
-- up a name, no conversion that overflows, and no nan or infinity in a NUMERIC column, the alert door
-- raises nothing. Its decision is a signed pass with no reject row or
-- a rejection with a reason and one reject row; and it passes only writes of a known kind with no
-- column outside the allowlist that meet the column contract and the rules of alerts: a new rule has
-- an owner, the webhook address fits the channels, the threshold is a percentage above 0, the
-- cooldown a week at most, and a new event has an alert and a message.
pub authorize_alert_write-Sound :
    (g : Gate) (readers : Readers) (source kind : String) (fields : Dict Value)
    (locator_keys : List String)
    → get table_locators (target kind).0 ≡ some locator_keys
    → all (has fields) locator_keys ≡ true
    → IsReadable readers kind fields
    → IsNumeric g (target kind).0 fields
    → Returns
        (Sound g true source
          (target kind).0
          (target kind).1
          fields
          (IsAlertWrite readers kind fields g (target kind).0))
        (authorize_alert_write g readers source kind fields)
unfolding authorize_alert_write
authorize_alert_write-Sound g readers source kind fields locator_keys known_locator located readable
      numeric =
    of_alert_kind-Sound g readers source kind (target kind).0 (target kind).1 fields locator_keys
      known_locator located (get alert_write_allowlist kind) refl readable
      (checked_subset g (target kind).0 fields numeric)
