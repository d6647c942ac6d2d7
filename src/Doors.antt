-- ===== src/Doors.antt =====
-- What the write doors of backend/app/modules/data_firewall share: the tests of a payload's columns
-- against a locator and an allowlist, and the ends of the doors. `Columns`, `Closing`, `Locator` and
-- `Contract` prove what these mean. The doors are the modules `ScrapeUpdate`, `ScrapeDelete`,
-- `UserDoor`, `ChatDoor` and `AlertDoor` beside this one.
pub mod Columns
pub mod Closing
pub mod Locator
pub mod Contract
use Prim.Native.String.{◌++◌ as ◌++ₛ◌}
use imperecta.Base.{
  String, Bool, true, false, not, Option, none, some, List, [], ◌∷◌, map, Dict, keys, has, elem,
  keep, sorted, is_empty, if◌then◌else◌, or_else, ◌==◌, Result, ok, value_error, type_error, ◌>>=◌,
}
use imperecta.Payload.{Value}
use imperecta.Signing.{SignedRecord}
use imperecta.Contracts.{extract_locator}
use imperecta.Firewall.Validate.{validate_against_contract, checked_against_contract}
use imperecta.Firewall.{Gate, Note, Decision, reject, accept, sign_fields}

-- `[key for key in locator_keys if key not in fields]`
unfoldable pub missing_columns : List String → Dict Value → List String
missing_columns locator_keys fields = keep (λ key. not (has fields key)) locator_keys

-- `set(fields) - set(locator_keys)`
unfoldable pub payload_columns : List String → Dict Value → List String
payload_columns locator_keys fields = keep (λ key. not (elem key locator_keys)) (keys fields)

-- `sorted(columns - allowed)`
unfoldable pub disallowed_columns : List String → List String → List String
disallowed_columns allowed columns = sorted (keep (λ key. not (elem key allowed)) columns)

-- `[f"{label}:{column}" for column in columns]`
unfoldable pub labelled : String → List String → List String
labelled label = map (λ column. label ++ₛ ":" ++ₛ column)

-- `failed_rules[0]`
abbrev pub first_of_rules : List String → String
first_of_rules [] = ""
first_of_rules (rule ∷ rules) = rule

-- a rejection for columns that are not allowed
unfoldable pub reject_columns :
    Bool → String → String → String → String → List String → Dict Value → Dict Note → Decision
unfolding labelled
reject_columns has_db source table operation label columns fields notes =
    let failed_rules = labelled label columns in
    reject has_db source table operation (first_of_rules failed_rules) failed_rules fields notes

-- `_validate_contract_subset`: passed, failed rules, reject reason. The tables of the user door
-- and of the chat door have no NUMERIC column, so that nothing raises here.
unfoldable pub validate_contract_subset :
    Gate → String → Dict Value → Bool × List String × Option String
validate_contract_subset g table fields = elim (g.fact_table_contracts table) [
  | none ↦ (false, "unknown_table" ∷ [], some "unknown_table")
  | some contract ↦ validate_against_contract fields contract
]

-- `_validate_contract_subset` of a table with NUMERIC columns
unfoldable pub checked_contract_subset :
    Gate → String → Dict Value → Result (Bool × List String × Option String)
checked_contract_subset g table fields = elim (g.fact_table_contracts table) [
  | none ↦ ok (false, "unknown_table" ∷ [], some "unknown_table")
  | some contract ↦ checked_against_contract fields contract
]

module _ (g : Gate) (has_db : Bool) (source table operation : String) where
  unfoldable pub close : Dict Value → Dict Note → Option SignedRecord → Decision
  close fields notes none =
      reject has_db source table operation "signing_unavailable" ("signing_secret_missing" ∷ [])
        fields []
  close fields notes (some signed_record) = accept notes signed_record

  unfoldable pub sign_or_reject : Dict Value → Dict Note → Result Decision
  sign_or_reject fields notes = do
    signed_record ← sign_fields g table operation fields
    ok (close fields notes signed_record)

  -- the end of the delete doors: the locator columns, and no others
  unfoldable pub locator_only : Dict Note → List String → Dict Value → Result Decision
  locator_only notes locator_keys fields =
      let extra = sorted (payload_columns locator_keys fields) in
      elim (extract_locator table fields) [
        | ok locator ↦
            if not (is_empty extra)
            then ok (
                reject_columns has_db source table operation "unexpected_delete_field" extra fields
                  [])
            else sign_or_reject fields notes
        | value_error message ↦ ok (
            reject has_db source table operation "missing_locator" ("missing_locator" ∷ []) fields
              [])
        | type_error message ↦ type_error message
      ]

  -- the end of the insert and update doors, with the fields that are validated
  unfoldable pub validate_and_sign : Dict Note → Dict Value → Dict Value → Result Decision
  validate_and_sign notes validated fields =
      let (passed, failed_rules, reject_reason) = validate_contract_subset g table validated in
      if not passed
      then ok (
          reject has_db source table operation (or_else reject_reason "contract_violation")
            failed_rules fields [])
      else sign_or_reject fields notes
