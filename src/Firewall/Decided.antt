-- ===== src/Firewall/Decided.antt =====
-- The contract that every door keeps: a decision is a signed pass that leaves no reject row, or an
-- unsigned rejection with a reason and, where the caller gave a session, one row that records it.
use imperecta.Base.{
  String, ◌≡◌, refl, Bool, true, false, Option, none, some, List, [], ◌∷◌, arith, Dict, ok, ◌⊎◌,
  inl, inr, >>=-eq-ok, if◌then◌else◌,
}
use imperecta.Payload.{Value}
use imperecta.Signing.{SignedRecord, sign}
use imperecta.Contracts.{extract_locator}
use imperecta.Firewall.{Gate, Note, Decision, reject_row, reject, accept, sign_fields, signed_with}

-- `r` is the record of these fields for this table and operation, with its locator and signature
pub record IsSigned (g : Gate) (table operation : String) (fields : Dict Value) (r : SignedRecord)
    : Type 0 where
  pub for_table : r.table ≡ table
  pub for_operation : r.operation ≡ operation
  pub all_fields : r.fields ≡ fields
  pub located : extract_locator table fields ≡ ok r.locator
  pub signed : sign g.signer table operation fields r.locator ≡ some r.signature

pub record IsAccepted (g : Gate) (table operation : String) (fields : Dict Value) (d : Decision)
    : Type 0 where
  pub signed_record : SignedRecord
  pub is_passed : d.outcome.passed ≡ true
  pub no_reason : d.outcome.reject_reason ≡ none
  pub no_failed_rules : d.outcome.failed_rules ≡ []
  pub carries : d.outcome.signed_record ≡ some signed_record
  pub is_signed : IsSigned g table operation fields signed_record
  pub no_rejects : d.rejects ≡ []

pub record IsRejected (has_db : Bool) (source table operation : String) (fields : Dict Value)
    (d : Decision) : Type 0 where
  pub reason : String
  pub not_passed : d.outcome.passed ≡ false
  pub unsigned : d.outcome.signed_record ≡ none
  pub has_reason : d.outcome.reject_reason ≡ some reason
  pub recorded : d.rejects ≡ (
      if has_db
      then reject_row source table operation reason d.outcome.failed_rules fields ∷ []
      else [])

abbrev pub Decided : Gate → Bool → String → String → String → Dict Value → Decision → Type 0
Decided g has_db source table operation fields d =
    IsAccepted g table operation fields d ⊎ IsRejected has_db source table operation fields d

pub reject-IsRejected :
    (has_db : Bool) (source table operation reason : String) (rules : List String)
    (fields : Dict Value) (notes : Dict Note)
    → IsRejected has_db source table operation fields
        (reject has_db source table operation reason rules fields notes)
unfolding reject
reject-IsRejected true source table operation reason rules fields notes = record {
  reason = reason;
  not_passed = refl;
  unsigned = refl;
  has_reason = refl;
  recorded = refl;
}
reject-IsRejected false source table operation reason rules fields notes = record {
  reason = reason;
  not_passed = refl;
  unsigned = refl;
  has_reason = refl;
  recorded = refl;
}

pub reject-Decided :
    (g : Gate) (has_db : Bool) (source table operation reason : String) (rules : List String)
    (fields : Dict Value) (notes : Dict Note)
    → Decided g has_db source table operation fields
        (reject has_db source table operation reason rules fields notes)
reject-Decided g has_db source table operation reason rules fields notes =
    inr (reject-IsRejected has_db source table operation reason rules fields notes)

pub accept-Decided :
    (g : Gate) (has_db : Bool) (source table operation : String) (fields : Dict Value)
    (notes : Dict Note) (r : SignedRecord)
    → IsSigned g table operation fields r
    → Decided g has_db source table operation fields (accept notes r)
unfolding accept
accept-Decided g has_db source table operation fields notes r h = inl (record {
  signed_record = r;
  is_passed = refl;
  no_reason = refl;
  no_failed_rules = refl;
  carries = refl;
  is_signed = h;
  no_rejects = refl;
})

module _ (g : Gate) (table operation : String) (fields : Dict Value) where
  signed_with-IsSigned :
      (locator : Dict Value) (signature : Option String) (r : SignedRecord)
      → extract_locator table fields ≡ ok locator
      → sign g.signer table operation fields locator ≡ signature
      → signed_with g table operation fields locator ≡ some r
      → IsSigned g table operation fields r
  unfolding signed_with
  signed_with-IsSigned locator none r found signed h = absurd (cc (rw (signed, signed_with) at h))
  signed_with-IsSigned locator (some signature) r found signed h = ground arith

  -- What `_sign_fields` returns is signed for the payload.
  pub sign_fields-IsSigned :
      (r : SignedRecord)
      → sign_fields g table operation fields ≡ ok (some r)
      → IsSigned g table operation fields r
  unfolding sign_fields
  sign_fields-IsSigned r h =
      let (locator, found, e) = >>=-eq-ok (extract_locator table fields) _ h in
      signed_with-IsSigned locator (sign g.signer table operation fields locator) r found refl
        (ground arith)
