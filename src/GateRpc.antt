-- ===== src/GateRpc.antt =====
-- backend/app/modules/persist/gate_rpc.py: `exec_write_record` and `exec_write_records`. The SQL
-- function `gate.exec_write` is an argument: from a table, an operation, the entries of the locator
-- and of the fields, a signature and a state of the database it gives the next state with the count
-- of rows, or `none` where it raises. `aborts` says where the pipelined statement fails by itself, as
-- on a lost connection. A failure leaves the state as it was, since the callers roll back.
use imperecta.Base.{ℕ, ◌+◌, String, Bool, Option, none, some, List, [], ◌∷◌, if◌then◌else◌}
use imperecta.Signing.{SignedRecord}
use imperecta.Signing.Ordered.{Entry, ordered_entries_from_mapping}

-- the arguments of a call of `gate.exec_write`
pub record Call : Type 0 where
  pub table : String
  pub operation : String
  pub locator : List Entry
  pub fields : List Entry
  pub signature : String

unfoldable pub call_of : SignedRecord → Call
call_of signed = record {
  table = signed.table;
  operation = signed.operation;
  locator = ordered_entries_from_mapping signed.locator;
  fields = ordered_entries_from_mapping signed.fields;
  signature = signed.signature;
}

module _ {Db : Type 0} (exec_write : Call → Db → Option (ℕ × Db)) where
  unfoldable pub exec_write_record : SignedRecord → Db → Option (ℕ × Db)
  exec_write_record signed db = exec_write (call_of signed) db

  -- the count of one call, and what the calls behind it count
  unfoldable pub add_calls : ℕ → Option (ℕ × Db) → Option (ℕ × Db)
  add_calls count none = none
  add_calls count (some (counts, db)) = some (count + counts, db)

  -- the calls of the statement, from left to right
  unfoldable pub exec_calls : List SignedRecord → Db → Option (ℕ × Db)
  exec_calls [] db = some (0, db)
  exec_calls (signed ∷ signed_records) db = elim (exec_write (call_of signed) db) [
    | none ↦ none
    | some (count, after) ↦ add_calls count (exec_calls signed_records after)
  ]

  unfoldable pub exec_write_records :
      (List SignedRecord → Db → Bool) → List SignedRecord → Db → Option (ℕ × Db)
  exec_write_records aborts [] db = some (0, db)
  exec_write_records aborts (signed ∷ signed_records) db =
      if aborts (signed ∷ signed_records) db then none else exec_calls (signed ∷ signed_records) db
