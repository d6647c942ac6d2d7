-- ===== src/Firewall/Logs/Signed.antt =====
-- What a signed log batch holds.
use imperecta.Base.{
  String, ◌≡◌, refl, Bool, true, false, Option, none, some, List, [], ◌∷◌, arith, Dict, ok, keep,
  Option-cases, if_rule, inl, inr, >>=-eq-ok,
}
use mathlib.Core.Path.{subst}
use imperecta.Payload.{Value}
use imperecta.Signing.{SignedBatch, sign_batch}
use imperecta.Contracts.{ColumnContract, extract_locator}
use imperecta.Firewall.{Gate}
use imperecta.Firewall.Validate.{validate_against_contract}
use imperecta.Firewall.Logs.{
  LogsDecision, Sorted, sort_row, sort_rows, rows_raise, nothing_signed, finish, sign_valid,
  evaluate_logs,
}

-- the row passes its column contract
abbrev pub passes : Dict ColumnContract → Dict Value → Bool
passes contract row = (validate_against_contract row contract).0

module _ (source table : String) where
  sort_row-keep :
      (contract : Dict ColumnContract) (row : Dict Value) (v : Bool × List String × Option String)
      (s : Sorted) (rows : List (Dict Value))
      → validate_against_contract row contract ≡ v
      → s.valid_rows ≡ keep (passes contract) rows
      → (sort_row source table row v s).valid_rows ≡ keep (passes contract) (row ∷ rows)
  unfolding sort_row keep
  sort_row-keep contract row (true, failed, reason) s rows e h = ground arith
  sort_row-keep contract row (false, failed, reason) s rows e h = ground arith

  sort_rows-keep :
      (contract : Dict ColumnContract) (rows : List (Dict Value))
      → (sort_rows source table contract rows).valid_rows ≡ keep (passes contract) rows
  unfolding sort_rows
  sort_rows-keep contract [] = unfold keep in refl
  sort_rows-keep contract (row ∷ rows) =
      sort_row-keep contract row (validate_against_contract row contract)
        (sort_rows source table contract rows) rows refl (sort_rows-keep contract rows)

-- a batch that carries these rows and their signature
pub record Carries (g : Gate) (table : String) (rows : List (Dict Value)) (b : SignedBatch)
    : Type 0 where
  pub carried : b.rows ≡ rows
  pub for_table : b.table ≡ table
  pub for_insert : b.operation ≡ "insert"
  pub signed : sign_batch g.signer table "insert" rows b.locator ≡ some b.signature

module _ (g : Gate) (has_db : Bool) (source table : String) where
  finish-Carries :
      (s : Sorted) (locator : Dict Value) (signature : Option String) (b : SignedBatch)
      → sign_batch g.signer table "insert" s.valid_rows locator ≡ signature
      → (finish g has_db source table s locator signature).outcome.signed_batch ≡ some b
      → Carries g table s.valid_rows b
  unfolding finish nothing_signed
  finish-Carries s locator none b e h = absurd (cc)
  finish-Carries s locator (some signature) b e h = ground arith

  sign_valid-Carries :
      (s : Sorted) (rows : List (Dict Value)) (d : LogsDecision) (b : SignedBatch)
      → sign_valid g has_db source table s rows ≡ ok d
      → d.outcome.signed_batch ≡ some b
      → Carries g table s.valid_rows b
  unfolding sign_valid
  sign_valid-Carries s [] d b returned h = absurd (unfold nothing_signed in ground arith)
  sign_valid-Carries s (first ∷ others) d b returned h =
      let (locator, found, e) = >>=-eq-ok (extract_locator table first) _ returned in
      finish-Carries s locator (sign_batch g.signer table "insert" s.valid_rows locator) b refl
        (ground arith)

  -- A call that returns got through the validation of its rows.
  pub signed_rows :
      (row : Dict Value) (rows : List (Dict Value)) (contract : Dict ColumnContract)
      (d : LogsDecision)
      → g.fact_table_contracts table ≡ some contract
      → evaluate_logs g has_db source table (row ∷ rows) ≡ ok d
      → sign_valid g has_db source table
          (sort_rows source table contract (row ∷ rows))
          (sort_rows source table contract (row ∷ rows)).valid_rows
        ≡ ok d
  unfolding evaluate_logs
  signed_rows row rows contract d e returned =
      if_rule
        (λ r.
          r ≡ ok d
          → sign_valid g has_db source table (sort_rows source table contract (row ∷ rows))
              (sort_rows source table contract (row ∷ rows)).valid_rows
            ≡ ok d)
        (rows_raise contract (row ∷ rows)) _
        (sign_valid g has_db source table (sort_rows source table contract (row ∷ rows))
          (sort_rows source table contract (row ∷ rows)).valid_rows)
        (λ _ h. absurd (cc)) (λ _ h. h) (rw (e, evaluate_logs) at returned)

  -- A batch is signed only for a table with a contract. It carries exactly the rows that pass the
  -- contract, in their order, and the signature of those rows.
  pub evaluate_logs-Carries :
      (rows : List (Dict Value)) (d : LogsDecision) (b : SignedBatch)
      → evaluate_logs g has_db source table rows ≡ ok d
      → d.outcome.signed_batch ≡ some b
      → (contract : Dict ColumnContract) × (g.fact_table_contracts table ≡ some contract)
        × Carries g table (keep (passes contract) rows) b
  unfolding evaluate_logs
  evaluate_logs-Carries [] d b returned h = absurd (unfold nothing_signed in ground arith)
  evaluate_logs-Carries (row ∷ rows) d b returned h =
      elim (Option-cases (g.fact_table_contracts table)) [
        | inl e ↦ absurd (unfold nothing_signed in ground arith)
        | inr (contract, e) ↦
            let s = sort_rows source table contract (row ∷ rows) in
            (
              contract,
              e,
              subst (λ kept. Carries g table kept b)
                  (sort_rows-keep source table contract (row ∷ rows))
                  (sign_valid-Carries s s.valid_rows d b
                    (signed_rows row rows contract d e returned) h),
            )
      ]
