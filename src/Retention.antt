-- ===== src/Retention.antt =====
-- Bulk deletes of old service data: backend/app/modules/persist/retention_config.py, the
-- windows and payloads of persist/retention.py, and their door in
-- backend/app/modules/data_firewall/retention_gate.py. Times are in seconds from the year 1;
-- `isoformat` and the test whether `datetime.fromisoformat` reads a text are arguments. An
-- OverflowError of the subtraction of days is a `value_error`. The theorems are in `Passes`.
pub mod Passes
use imperecta.Base.{
  ℕ, ◌-◌, ◌*◌, String, Bool, true, false, not, ◌&&◌, ◌==◌, Option, none, some, List, [], ◌∷◌, all,
  elem, Dict, get, keys, has, if◌then◌else◌, Result, ok, value_error, type_error, ◌>>=◌, ltb,
}
use imperecta.Payload.{Value, str, read, str_of}
use imperecta.Signing.{SignedRecord, sign}
use imperecta.Firewall.{Gate, Note, text, Decision, reject, accept}

pub record RetentionTableConfig : Type 0 where
  pub cutoff_column : String
  pub window_days : ℕ

unfoldable pub retention_tables : Dict RetentionTableConfig
retention_tables =
    ("service_alerts", record { cutoff_column = "triggered_at"; window_days = 3 })
    ∷ ("reject_data", record { cutoff_column = "created_at"; window_days = 3 })
    ∷ ("scrape_logs", record { cutoff_column = "created_at"; window_days = 14 })
    ∷ ("api_logs", record { cutoff_column = "created_at"; window_days = 60 })
    ∷ []

-- `value == expected` for a text `expected`
unfoldable pub is_text : Value → String → Bool
is_text (str s) expected = s == expected
is_text _ expected = false

-- `set(fields.keys()) == {"cutoff_column", "cutoff"}`
unfoldable pub has_retention_keys : Dict Value → Bool
has_retention_keys fields =
    has fields "cutoff_column"
    && has fields "cutoff"
    && all (λ key. elem key ("cutoff_column" ∷ "cutoff" ∷ [])) (keys fields)

module _ (g : Gate) (from_isoformat : String → Bool) (has_db : Bool) (source table : String)
    (fields : Dict Value) where
  unfoldable pub refuse_retention : String → Dict Note → Decision
  refuse_retention reason notes =
      reject has_db source table "retention_delete" reason (reason ∷ []) fields notes

  -- from the call of `sign` on
  unfoldable pub close_retention : String → Option String → Decision
  close_retention expected_column none = refuse_retention "signing_unavailable" []
  close_retention expected_column (some signature) =
      accept (("table", text (some table)) ∷ ("cutoff_column", text (some expected_column)) ∷ [])
        (record {
          table = table;
          operation = "retention_delete";
          locator = [];
          fields = fields;
          signature = signature;
        })

  unfoldable pub check_retention : RetentionTableConfig → Decision
  check_retention config =
      if not (has_retention_keys fields)
      then refuse_retention "retention_invalid_fields" []
      else if not (is_text (read fields "cutoff_column") config.cutoff_column)
      then refuse_retention "retention_cutoff_column_mismatch" []
      else if not (from_isoformat (str_of (read fields "cutoff")))
      then refuse_retention "retention_invalid_cutoff" []
      else close_retention config.cutoff_column (sign g.signer table "retention_delete" fields [])

  -- on the configuration of the table
  unfoldable pub authorize_configured : Option RetentionTableConfig → Decision
  authorize_configured none =
      refuse_retention "retention_table_not_whitelisted" (("table", text (some table)) ∷ [])
  authorize_configured (some config) = check_retention config

  unfoldable pub authorize_retention_delete : Decision
  authorize_retention_delete = authorize_configured (get retention_tables table)

-- a table that is not whitelisted raises RetentionTableNotWhitelistedError, a ValueError
unfoldable pub config_of : String → Option RetentionTableConfig → Result RetentionTableConfig
config_of table none = value_error table
config_of table (some config) = ok config

unfoldable pub retention_config_for_table : String → Result RetentionTableConfig
retention_config_for_table table = config_of table (get retention_tables table)

-- a time before the year 1 is out of range
unfoldable pub retention_cutoff : RetentionTableConfig → ℕ → Result ℕ
retention_cutoff config now =
    if ltb now (86400 * config.window_days)
    then value_error "date value out of range"
    else ok (now - 86400 * config.window_days)

unfoldable pub retention_fields : (ℕ → String) → RetentionTableConfig → ℕ → Dict Value
retention_fields isoformat config cutoff =
    ("cutoff_column", str config.cutoff_column) ∷ ("cutoff", str (isoformat cutoff)) ∷ []

-- `retention_delete_table`, up to the answer of the door
unfoldable pub authorize_table :
    Gate → (String → Bool) → (ℕ → String) → String → ℕ → Result Decision
authorize_table g from_isoformat isoformat table now = do
  config ← retention_config_for_table table
  cutoff ← retention_cutoff config now
  ok (
      authorize_retention_delete g from_isoformat true "maintenance_retention" table
        (retention_fields isoformat config cutoff))
