-- ===== src/Firewall/Logs.antt =====
-- `evaluate_logs` of backend/app/modules/data_firewall/firewall.py: the door for batches of audit
-- rows. The proofs are in `Accounting` and `Signed`.
pub mod Accounting
pub mod Signed
use imperecta.Base.{
  ℕ, ◌+◌, String, Bool, true, false, Option, none, some, List, [], ◌∷◌, ◌++◌, map, Dict, Result, ok,
  value_error, type_error, ◌||◌, ◌>>=◌, length, or_else, if◌then◌else◌, is_empty,
}
use imperecta.Payload.{Value}
use imperecta.Signing.{SignedBatch, sign_batch}
use imperecta.Contracts.{ColumnContract, extract_locator}
use imperecta.Firewall.{Gate, RejectRow, reject_row}
use imperecta.Firewall.Validate.{validate_against_contract, validation_raises}

pub record LogsOutcome : Type 0 where
  pub inserted_count : ℕ
  pub rejected_count : ℕ
  pub signed_batch : Option SignedBatch

pub record LogsDecision : Type 0 where
  pub outcome : LogsOutcome
  pub rejects : List RejectRow

-- the rows that pass, and the reject rows of the others, in order
pub record Sorted : Type 0 where
  pub valid_rows : List (Dict Value)
  pub rejected : List RejectRow

-- `if db is not None` around the writes to the reject store
abbrev pub if_db : Bool → List RejectRow → List RejectRow
if_db true rows = rows
if_db false rows = []

-- whether the validation of some row raises, which ends the call; the reject rows that were stored
-- for the rows before it are left out
unfoldable pub rows_raise : Dict ColumnContract → List (Dict Value) → Bool
rows_raise contract [] = false
rows_raise contract (row ∷ rows) = validation_raises row contract || rows_raise contract rows

module _ (source table : String) where
  -- one round of the loop: the verdict on a row, put before those on the later rows
  sort_row : Dict Value → Bool × List String × Option String → Sorted → Sorted
  sort_row row (true, failed, reason) later = record later { valid_rows = row ∷ later.valid_rows }
  sort_row row (false, failed, reason) later = record later {
    rejected =
        reject_row source table "insert" (or_else reason "contract_violation") failed row
        ∷ later.rejected;
  }

  unfoldable pub sort_rows : Dict ColumnContract → List (Dict Value) → Sorted
  unfolding sort_row
  sort_rows contract [] = record { valid_rows = []; rejected = [] }
  sort_rows contract (row ∷ rows) =
      sort_row row (validate_against_contract row contract) (sort_rows contract rows)

  -- the reject rows for rows that all fail alike
  unfoldable pub reject_all : String → List String → List (Dict Value) → List RejectRow
  reject_all reason failed [] = []
  reject_all reason failed (row ∷ rows) =
      reject_row source table "insert" reason failed row ∷ reject_all reason failed rows

nothing_signed : ℕ → List RejectRow → LogsDecision
nothing_signed rejected_count rejects = record {
  outcome = record { inserted_count = 0; rejected_count = rejected_count; signed_batch = none };
  rejects = rejects;
}

module _ (g : Gate) (has_db : Bool) (source table : String) where
  -- the end of the function: the batch was signed, or the secret is missing
  finish : Sorted → Dict Value → Option String → LogsDecision
  unfolding nothing_signed reject_all
  finish s locator none = nothing_signed (length s.rejected + length s.valid_rows) (
      if_db has_db (
        s.rejected
        ++ reject_all source table "signing_unavailable" ("signing_secret_missing" ∷ [])
            s.valid_rows))
  finish s locator (some signature) = record {
    outcome = record {
      inserted_count = length s.valid_rows;
      rejected_count = length s.rejected;
      signed_batch = some (record {
        table = table;
        operation = "insert";
        locator = locator;
        rows = s.valid_rows;
        signature = signature;
      });
    };
    rejects = if_db has_db s.rejected;
  }

  pub sign_valid : Sorted → List (Dict Value) → Result LogsDecision
  unfolding nothing_signed finish
  sign_valid s [] = ok (nothing_signed (length s.rejected) (if_db has_db s.rejected))
  sign_valid s (first ∷ others) = do
    locator ← extract_locator table first
    ok (finish s locator (sign_batch g.signer table "insert" s.valid_rows locator))

  unfoldable pub evaluate_logs : List (Dict Value) → Result LogsDecision
  unfolding nothing_signed reject_all sign_valid
  evaluate_logs [] = ok (nothing_signed 0 [])
  evaluate_logs (row ∷ rows) = elim (g.fact_table_contracts table) [
    | none ↦ ok (
        nothing_signed (length (row ∷ rows)) (
          if_db has_db
            (reject_all source table "unknown_table" ("unknown_table" ∷ []) (row ∷ rows))))
    | some contract ↦
        let s = sort_rows source table contract (row ∷ rows) in
        if rows_raise contract (row ∷ rows)
        then type_error "'>=' not supported between instances of 'str' and 'int'"
        else sign_valid s s.valid_rows
  ]
