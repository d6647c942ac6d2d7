-- ===== src/Firewall/Market.antt =====
-- `evaluate_market` of backend/app/modules/data_firewall/firewall.py: the structural door for market
-- data and metadata rows.
pub mod Laws
use imperecta.Base.{
  String, Bool, true, false, Option, none, some, List, [], ◌∷◌, Dict, Result, ok, ◌>>=◌, or_else,
  if◌then◌else◌,
}
use imperecta.Payload.{Value}
use imperecta.Signing.{SignedRecord}
use imperecta.Contracts.{ColumnContract}
use imperecta.Firewall.{
  Gate, Note, text, FirewallOutcome, RejectRow, Decision, plain_outcome, reject, accept,
  sign_fields,
}
use imperecta.Firewall.Validate.{checked_against_contract}

module _ (g : Gate) (has_db : Bool) (source table operation : String) where
  -- an unknown table leaves no reject row
  unknown_table : Decision
  unknown_table = record {
    outcome =
        plain_outcome false (some "unknown_table") ("unknown_table" ∷ [])
          (("table", text (some table)) ∷ []) none;
    rejects = [];
  }

  notes : Dict Note
  notes = ("table", text (some table)) ∷ []

  signed_or_rejected : Dict Value → Option SignedRecord → Decision
  unfolding notes
  signed_or_rejected fields none =
      reject has_db source table operation "signing_unavailable" ("signing_secret_missing" ∷ [])
        fields notes
  signed_or_rejected fields (some signed_record) = accept notes signed_record

  after_validation : Dict Value → Bool × List String × Option String → Result Decision
  unfolding signed_or_rejected notes
  after_validation fields (true, failed, reason) = do
    signed_record ← sign_fields g table operation fields
    ok (signed_or_rejected fields signed_record)
  after_validation fields (false, failed, reason) = ok (
      reject has_db source table operation (or_else reason "data_firewall_reject") failed fields
        notes)

  unfoldable pub evaluate_market : Dict Value → Result Decision
  unfolding unknown_table after_validation
  evaluate_market fields = elim (g.fact_table_contracts table) [
    | none ↦ ok unknown_table
    | some contract ↦ checked_against_contract fields contract >>= after_validation fields
  ]
