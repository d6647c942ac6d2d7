-- ===== src/Firewall/Logs/Accounting.antt =====
-- Every row of a log batch is accounted for, and only rows that pass their contract are signed.
use imperecta.Base.{
  get, Returns, sym, ℕ, suc, ◌+◌, String, ◌≡◌, refl, ap, Bool, true, false, Option, none, some,
  List, [], ◌∷◌, arith, Dict, ok, length, length-append, if◌then◌else◌, Option-cases, inl, inr,
  >>=-eq-ok,
}
use mathlib.Core.Path.{subst}
use imperecta.Payload.{Value}
use imperecta.Signing.{sign_batch}
use imperecta.Contracts.{ColumnContract, extract_locator, table_locators, extract_locator_total}
use imperecta.Firewall.{Gate}
use imperecta.Firewall.Validate.{validate_against_contract}
use imperecta.Firewall.Logs.Signed.{signed_rows}
use imperecta.Firewall.Logs.{
  LogsDecision, Sorted, sort_row, sort_rows, rows_raise, reject_all, nothing_signed, finish,
  sign_valid, if_db, evaluate_logs,
}

module _ (source table : String) where
  length-reject_all :
      (reason : String) (failed : List String) (rows : List (Dict Value))
      → length (reject_all source table reason failed rows) ≡ length rows
  unfolding reject_all
  length-reject_all reason failed [] = refl
  length-reject_all reason failed (row ∷ rows) = ap suc (length-reject_all reason failed rows)

  sort_row-count :
      (row : Dict Value) (v : Bool × List String × Option String) (s : Sorted)
      → length (sort_row source table row v s).valid_rows
          + length (sort_row source table row v s).rejected
        ≡ suc (length s.valid_rows + length s.rejected)
  unfolding sort_row
  sort_row-count row (true, failed, reason) s = omega arith
  sort_row-count row (false, failed, reason) s = omega arith

  sort_rows-count :
      (contract : Dict ColumnContract) (rows : List (Dict Value))
      → length (sort_rows source table contract rows).valid_rows
          + length (sort_rows source table contract rows).rejected
        ≡ length rows
  unfolding sort_rows
  sort_rows-count contract [] = refl
  sort_rows-count contract (row ∷ rows) = omega (
    arith,
    sort_row-count row (validate_against_contract row contract)
        (sort_rows source table contract rows),
    sort_rows-count contract rows,
  )

-- what the two counters of a decision say of `n` rows, and of the rows for the reject store
pub record Accounts (has_db : Bool) (n : ℕ) (d : LogsDecision) : Type 0 where
  pub every_row : d.outcome.inserted_count + d.outcome.rejected_count ≡ n
  pub every_reject_stored : length d.rejects ≡ (if has_db then d.outcome.rejected_count else 0)

module _ (g : Gate) (has_db : Bool) (source table : String) where
  finish-Accounts :
      (s : Sorted) (locator : Dict Value) (signature : Option String)
      → Accounts has_db
          (length s.valid_rows + length s.rejected)
          (finish g has_db source table s locator signature)
  unfolding finish nothing_signed
  finish-Accounts s locator none = record {
    every_row = omega arith;
    every_reject_stored = ground (
      arith,
      length-append {0} s.rejected (
          reject_all source table "signing_unavailable" ("signing_secret_missing" ∷ [])
            s.valid_rows),
      length-reject_all source table "signing_unavailable" ("signing_secret_missing" ∷ [])
          s.valid_rows,
    );
  }
  finish-Accounts s locator (some signature) = record {
    every_row = omega arith;
    every_reject_stored = ground arith;
  }

  sign_valid-Accounts :
      (s : Sorted) (rows : List (Dict Value)) (d : LogsDecision)
      → s.valid_rows ≡ rows
      → sign_valid g has_db source table s rows ≡ ok d
      → Accounts has_db (length s.valid_rows + length s.rejected) d
  unfolding sign_valid nothing_signed
  sign_valid-Accounts s [] d same returned = record {
    every_row = ground arith;
    every_reject_stored = ground arith;
  }
  sign_valid-Accounts s (first ∷ others) d same returned =
      let (locator, found, e) = >>=-eq-ok (extract_locator table first) _ returned in
      let e' : finish g has_db source table s locator
            (sign_batch g.signer table "insert" s.valid_rows locator)
          ≡ d =
        ground arith in
      subst (Accounts has_db (length s.valid_rows + length s.rejected)) e'
        (finish-Accounts s locator (sign_batch g.signer table "insert" s.valid_rows locator))

  all_rejected-Accounts :
      (reason : String) (failed : List String) (rows : List (Dict Value))
      → Accounts has_db
          (length rows)
          (nothing_signed (length rows) (if_db has_db (reject_all source table reason failed rows)))
  unfolding nothing_signed
  all_rejected-Accounts reason failed rows = record {
    every_row = omega arith;
    every_reject_stored = ground (arith, length-reject_all source table reason failed rows);
  }

  -- Whenever `evaluate_logs` returns, the rows inserted and the rows rejected add up to the rows
  -- given, and with a database session there is one reject row for every row rejected.
  pub evaluate_logs-Accounts :
      (rows : List (Dict Value)) (d : LogsDecision)
      → evaluate_logs g has_db source table rows ≡ ok d
      → Accounts has_db (length rows) d
  unfolding evaluate_logs
  evaluate_logs-Accounts [] d returned = record {
    every_row = unfold nothing_signed in ground arith;
    every_reject_stored = unfold nothing_signed in ground arith;
  }
  evaluate_logs-Accounts (row ∷ rows) d returned =
      elim (Option-cases (g.fact_table_contracts table)) [
        | inl e ↦
            let e' : nothing_signed (length (row ∷ rows)) (
                  if_db has_db
                    (reject_all source table "unknown_table" ("unknown_table" ∷ []) (row ∷ rows)))
                ≡ d =
              ground arith in
            subst (Accounts has_db (length (row ∷ rows))) e'
              (all_rejected-Accounts "unknown_table" ("unknown_table" ∷ []) (row ∷ rows))
        | inr (contract, e) ↦
            let s = sort_rows source table contract (row ∷ rows) in
            subst (λ n. Accounts has_db n d) (sort_rows-count source table contract (row ∷ rows))
              (sign_valid-Accounts s s.valid_rows d refl
                (signed_rows g has_db source table row rows contract d e returned))
      ]

  -- No row holds nan or an infinity in a NUMERIC column.
  abbrev pub AreNumeric : List (Dict Value) → Type 0
  AreNumeric rows =
      (contract : Dict ColumnContract)
      → g.fact_table_contracts table ≡ some contract
      → rows_raise contract rows ≡ false

  sign_valid_total :
      (s : Sorted) (rows : List (Dict Value))
      → get table_locators table ≡ some []
      → (d : LogsDecision) × (sign_valid g has_db source table s rows ≡ ok d)
  unfolding sign_valid
  sign_valid_total s [] known = (_, refl)
  sign_valid_total s (first ∷ others) known =
      let (locator, e) = extract_locator_total table first [] known refl in
      (
        finish g has_db source table s locator
            (sign_batch g.signer table "insert" s.valid_rows locator),
        ground arith,
      )

  evaluate_logs_total :
      (rows : List (Dict Value))
      → get table_locators table ≡ some []
      → AreNumeric rows
      → (d : LogsDecision) × (evaluate_logs g has_db source table rows ≡ ok d)
  unfolding evaluate_logs
  evaluate_logs_total [] known numeric = (_, refl)
  evaluate_logs_total (row ∷ rows) known numeric =
      elim (Option-cases (g.fact_table_contracts table)) [
        | inl e ↦ (
          nothing_signed (length (row ∷ rows)) (
              if_db has_db
                (reject_all source table "unknown_table" ("unknown_table" ∷ []) (row ∷ rows))),
          rw (e, evaluate_logs) refl,
        )
        | inr (contract, e) ↦
            let s = sort_rows source table contract (row ∷ rows) in
            rw (e, numeric contract e, evaluate_logs) (sign_valid_total s s.valid_rows known)
      ]

  -- For a table without locator columns, such as the two log tables, and rows without nan and
  -- infinities in their NUMERIC columns, `evaluate_logs` raises nothing;
  -- the rows inserted and the rows rejected add up to the rows given, and there is one reject row
  -- for every row rejected if there is a database session, and none otherwise.
  pub evaluate_logs-Accounts_total :
      (rows : List (Dict Value))
      → get table_locators table ≡ some []
      → AreNumeric rows
      → Returns (Accounts has_db (length rows)) (evaluate_logs g has_db source table rows)
  evaluate_logs-Accounts_total rows known numeric =
      let (d, e) = evaluate_logs_total rows known numeric in
      subst (Returns (Accounts has_db (length rows))) (sym e) (evaluate_logs-Accounts rows d e)
