-- ===== src/Firewall/Market/Laws.antt =====
-- What the market door decides.
use imperecta.Base.{
  get, has, all, Returns, sym, String, ◌≡◌, refl, Bool, true, false, Option, none, some, List, [],
  ◌∷◌, arith, Dict, ok, >>=-eq-ok, ◌>>=◌, ap, ◌∙◌, inl, inr, Option-cases, or_else,
}
use mathlib.Core.Path.{subst}
use imperecta.Payload.{Value}
use imperecta.Signing.{SignedRecord}
use imperecta.Contracts.{ColumnContract, table_locators, extract_locator_total}
use imperecta.Firewall.{Gate, Decision, plain_outcome, reject, sign_fields, signed_with}
use imperecta.Firewall.Decided.{Decided, reject-Decided, accept-Decided, sign_fields-IsSigned}
use imperecta.Firewall.Validate.{
  validate_against_contract, checked_against_contract, validation_raises,
}
use imperecta.Firewall.Validate.Raising.{checked-ok, checked-not_raised}
use imperecta.Firewall.Market.{
  notes, signed_or_rejected, after_validation, unknown_table, evaluate_market,
}

module _ (g : Gate) (has_db : Bool) (source table operation : String) where
  signed_or_rejected-Decided :
      (fields : Dict Value) (o : Option SignedRecord)
      → sign_fields g table operation fields ≡ ok o
      → Decided g has_db source table operation fields
          (signed_or_rejected g has_db source table operation fields o)
  unfolding signed_or_rejected
  signed_or_rejected-Decided fields none h =
      reject-Decided g has_db source table operation "signing_unavailable"
        ("signing_secret_missing" ∷ []) fields _
  signed_or_rejected-Decided fields (some r) h =
      accept-Decided g has_db source table operation fields _ r
        (sign_fields-IsSigned g table operation fields r h)

  after_validation-Decided :
      (fields : Dict Value) (v : Bool × List String × Option String) (d : Decision)
      → after_validation g has_db source table operation fields v ≡ ok d
      → Decided g has_db source table operation fields d
  unfolding after_validation
  after_validation-Decided fields (true, failed, reason) d h =
      let (o, signed, e) = >>=-eq-ok (sign_fields g table operation fields) _ h in
      let e' : signed_or_rejected g has_db source table operation fields o ≡ d = ground arith in
      subst (Decided g has_db source table operation fields) e'
        (signed_or_rejected-Decided fields o signed)
  after_validation-Decided fields (false, failed, reason) d h =
      let e' : reject has_db source table operation (or_else reason "data_firewall_reject") failed
            fields (notes g has_db source table operation)
          ≡ d =
        ground arith in
      subst (Decided g has_db source table operation fields) e'
        (reject-Decided g has_db source table operation _ failed fields _)

  -- For a table with a contract, whenever the market door returns, it has either signed the record
  -- and left no reject row, or rejected it unsigned with a reason and, given a session, one row.
  pub evaluate_market-Decided :
      (fields : Dict Value) (contract : Dict ColumnContract) (d : Decision)
      → g.fact_table_contracts table ≡ some contract
      → evaluate_market g has_db source table operation fields ≡ ok d
      → Decided g has_db source table operation fields d
  unfolding evaluate_market
  evaluate_market-Decided fields contract d known returned =
      let (v, checked, after) =
        >>=-eq-ok (checked_against_contract fields contract) _
          (rw (known, evaluate_market) at returned) in
      after_validation-Decided fields v d after

  after_validation_total :
      (fields : Dict Value) (locator_keys : List String) (v : Bool × List String × Option String)
      → get table_locators table ≡ some locator_keys
      → all (has fields) locator_keys ≡ true
      → (d : Decision) × (after_validation g has_db source table operation fields v ≡ ok d)
  unfolding after_validation sign_fields
  after_validation_total fields locator_keys (true, failed, reason) located present =
      let (locator, e) = extract_locator_total table fields locator_keys located present in
      (
        signed_or_rejected g has_db source table operation fields
            (signed_with g table operation fields locator),
        ground arith,
      )
  after_validation_total fields locator_keys (false, failed, reason) located present = (_, refl)

  after_validation-valid :
      (fields : Dict Value) (v : Bool × List String × Option String) (d : Decision)
      → after_validation g has_db source table operation fields v ≡ ok d
      → d.outcome.passed ≡ true
      → v.0 ≡ true
  unfolding after_validation reject
  after_validation-valid fields (true, failed, reason) d h passed = refl
  after_validation-valid fields (false, failed, reason) d h passed = absurd (ground arith)

  unknown_not_passed :
      (d : Decision)
      → unknown_table g has_db source table operation ≡ d
      → d.outcome.passed ≡ true
      → ⊥
  unfolding unknown_table plain_outcome
  unknown_not_passed d e passed = ground arith

  -- A record that the market door passes has a contract for its table and satisfies it.
  pub evaluate_market_valid :
      (fields : Dict Value) (d : Decision)
      → evaluate_market g has_db source table operation fields ≡ ok d
      → d.outcome.passed ≡ true
      → (contract : Dict ColumnContract) × (g.fact_table_contracts table ≡ some contract)
        × ((validate_against_contract fields contract).0 ≡ true)
  unfolding evaluate_market
  evaluate_market_valid fields d returned passed =
      elim (Option-cases (g.fact_table_contracts table)) [
        | inl e ↦ absurd (unknown_not_passed d (ground arith) passed)
        | inr (contract, e) ↦
            let (v, checked, after) =
              >>=-eq-ok (checked_against_contract fields contract) _
                (rw (e, evaluate_market) at returned) in
            (
              contract,
              e,
              ap (λ x. x.0) (checked-ok fields contract v checked)
                  ∙ after_validation-valid fields v d after passed,
            )
      ]

  -- For a table with a contract and a record with the locator columns of the table and without
  -- nan and infinities in NUMERIC columns, the market door raises nothing: it signs the record
  -- and leaves no reject row, or it rejects it unsigned with a reason and, given a session, one
  -- reject row.
  pub evaluate_market_decides :
      (fields : Dict Value) (contract : Dict ColumnContract) (locator_keys : List String)
      → g.fact_table_contracts table ≡ some contract
      → get table_locators table ≡ some locator_keys
      → all (has fields) locator_keys ≡ true
      → validation_raises fields contract ≡ false
      → Returns
          (Decided g has_db source table operation fields)
          (evaluate_market g has_db source table operation fields)
  evaluate_market_decides fields contract locator_keys known located present numeric =
      let (d, e) =
        after_validation_total fields locator_keys (validate_against_contract fields contract)
          located present in
      let returned : evaluate_market g has_db source table operation fields ≡ ok d =
        unfold evaluate_market in
        rw (known, evaluate_market)
          (subst (λ r. (r >>= after_validation g has_db source table operation fields) ≡ ok d)
            (sym (checked-not_raised fields contract numeric)) e) in
      subst (Returns (Decided g has_db source table operation fields)) (sym returned)
        (evaluate_market-Decided fields contract d known returned)
