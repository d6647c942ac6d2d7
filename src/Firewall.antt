-- ===== src/Firewall.antt =====
-- backend/app/modules/data_firewall/firewall.py: what every door shares, namely the outcome, the
-- rows of the reject store, and signing. `Decided` says what a decision is to look like, `Validate`
-- checks a payload against its column contract, `Logs`, `Ecommerce` and `Market` are the three entry
-- points, and each proof module stands below its entry point.
pub mod Decided
pub mod Validate
pub mod Logs
pub mod Ecommerce
pub mod Market
use imperecta.Base.{
  ℕ, String, ◌≡◌, Bool, true, false, Option, none, some, List, [], ◌∷◌, Dict, Result, ok,
  value_error, ◌>>=◌, is_none,
}
use imperecta.Payload.{Value, str, null}
use imperecta.Signing.{Signer, SignedRecord, SignedBatch, sign}
use imperecta.Contracts.{ColumnContract, extract_locator}

-- What the doors take from outside: the signing secret with the HMAC, and the column contracts that
-- SQLAlchemy derives from the ORM models (`FACT_TABLE_CONTRACTS`).
pub record Gate : Type 0 where
  pub signer : Signer
  pub fact_table_contracts : String → Option (Dict ColumnContract)

pub data Note : Type 0 where
  text : Option String → Note
  texts : List String → Note

pub record FirewallOutcome : Type 0 where
  pub passed : Bool
  pub reject_reason : Option String
  pub failed_rules : List String
  pub forced_log_status : Option String
  pub page_role_verdict : Option String
  pub notes : Dict Note
  pub product_name_ok : Bool
  pub price_ok : Bool
  pub currency_ok : Bool
  pub currency_raw_sane_ok : Bool
  pub currency_country_match_ok : Bool
  pub signed_record : Option SignedRecord

-- a row handed to `write_reject_data_isolated`; `rejected_by` is always the firewall and
-- `signature_present` always false
pub record RejectRow : Type 0 where
  pub source : String
  pub table_target : String
  pub reject_reason : String
  pub failed_rules : List String
  pub raw_payload : Dict Value
  pub marketplace_id : Option String
  pub listing_id : Option String
  pub operation : String

-- a decision, with the rows that were handed to the reject store meanwhile
pub record Decision : Type 0 where
  pub outcome : FirewallOutcome
  pub rejects : List RejectRow

-- `FirewallOutcome(...)` of the doors that have no gate flags
unfoldable pub plain_outcome :
    Bool → Option String → List String → Dict Note → Option SignedRecord → FirewallOutcome
plain_outcome passed reject_reason failed_rules notes signed_record = record {
  passed = passed;
  reject_reason = reject_reason;
  failed_rules = failed_rules;
  forced_log_status = none;
  page_role_verdict = none;
  notes = notes;
  product_name_ok = false;
  price_ok = false;
  currency_ok = false;
  currency_raw_sane_ok = false;
  currency_country_match_ok = false;
  signed_record = signed_record;
}

unfoldable pub reject_row : String → String → String → String → List String → Dict Value → RejectRow
reject_row source table operation reject_reason failed_rules fields = record {
  source = source;
  table_target = table;
  reject_reason = reject_reason;
  failed_rules = failed_rules;
  raw_payload = fields;
  marketplace_id = none;
  listing_id = none;
  operation = operation;
}

-- `_reject` of the doors: a row for the reject store if the caller gave a session, and the outcome
unfoldable pub reject :
    Bool → String → String → String → String → List String → Dict Value → Dict Note → Decision
unfolding plain_outcome reject_row
reject has_db source table operation reject_reason failed_rules fields notes = record {
  outcome = plain_outcome false (some reject_reason) failed_rules notes none;
  rejects = elim has_db [
    | true ↦ reject_row source table operation reject_reason failed_rules fields ∷ []
    | false ↦ []
  ];
}

unfoldable pub accept : Dict Note → SignedRecord → Decision
unfolding plain_outcome
accept notes signed_record = record {
  outcome = plain_outcome true none [] notes (some signed_record);
  rejects = [];
}

module _ (g : Gate) where
  -- the record that `_sign_fields` builds, once the locator is there
  unfoldable pub signed_with : String → String → Dict Value → Dict Value → Option SignedRecord
  signed_with table operation fields locator = elim (sign g.signer table operation fields locator) [
    | none ↦ none
    | some signature ↦ some (record {
      table = table;
      operation = operation;
      locator = locator;
      fields = fields;
      signature = signature;
    })
  ]

  unfoldable pub sign_fields : String → String → Dict Value → Result (Option SignedRecord)
  sign_fields table operation fields = do
    locator ← extract_locator table fields
    ok (signed_with table operation fields locator)
