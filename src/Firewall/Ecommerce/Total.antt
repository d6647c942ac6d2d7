-- ===== src/Firewall/Ecommerce/Total.antt =====
-- The e-commerce door always decides, and records what it turns away.
use imperecta.Base.{
  ◌>>=◌, String, ◌≡◌, ◌⊎◌, inl, inr, refl, Bool, true, false, Option, none, some, List, [], arith,
  Dict, ok, Returns, get, has, all, length, if◌then◌else◌, Bool-cases,
}
use imperecta.Payload.{Value}
use imperecta.Contracts.{table_locators, extract_locator_total}
use imperecta.Rules.{GateOutcome, evaluate_ecommerce_rules}
use imperecta.Rules.Currency.{Marketplaces, Cache}
use imperecta.Firewall.{Gate, Decision, sign_fields, signed_with}
use imperecta.Firewall.Validate.{
  validate_against_contract, validation_raises, checked_against_contract,
}
use imperecta.Firewall.Validate.Raising.{checked-not_raised}
use mathlib.Core.Path.{subst, sym}
use imperecta.Firewall.Ecommerce.{
  Stage, Request, check_role, set_signature, check_fields, persist_stage, role_of, conclude,
  evaluate_ecommerce,
}
use imperecta.Firewall.Ecommerce.Laws.{contract_of}

-- The persist fields, if there are any, hold the locator columns of the table.
abbrev pub IsLocated : String → Option (Dict Value) → Type 0
IsLocated table none = Unit
IsLocated table (some fields) =
    (locator_keys : List String) × (get table_locators table ≡ some locator_keys)
    × (all (has fields) locator_keys ≡ true)

-- No NUMERIC column of the persist fields, if there are any, holds nan or an infinity.
abbrev pub IsNumeric : Gate → String → Option (Dict Value) → Type 0
IsNumeric g table none = Unit
IsNumeric g table (some fields) = validation_raises fields (contract_of g table) ≡ false

-- A pass leaves no reject row; a rejection leaves one if there is a session.
abbrev pub IsRecorded : Bool → Decision → Type 0
IsRecorded has_db d =
    ((d.outcome.passed ≡ true) × (d.rejects ≡ []))
    ⊎ ((d.outcome.passed ≡ false) × (length d.rejects ≡ (if has_db then 1 else 0)))

module _ (g : Gate) (table : String) where
  check_fields_total :
      (s : Stage) (fields : Dict Value) (v : Bool × List String × Option String)
      → IsLocated table (some fields)
      → (s' : Stage) × (check_fields g table s fields v ≡ ok s')
  unfolding check_fields sign_fields
  check_fields_total s fields (false, failed, reason) located = (_, refl)
  check_fields_total s fields (true, failed, reason) (locator_keys, known, present) =
      let (locator, e) = extract_locator_total table fields locator_keys known present in
      (set_signature g table s (signed_with g table "insert" fields locator), ground arith)

  persist_stage_total :
      (s : Stage) (pf : Option (Dict Value))
      → IsLocated table pf
      → IsNumeric g table pf
      → (s' : Stage) × (persist_stage g table s pf ≡ ok s')
  unfolding persist_stage
  persist_stage_total s none located numeric = (s, refl)
  persist_stage_total s (some fields) located numeric =
      let checked = checked-not_raised fields (contract_of g table) numeric in
      let (s', e) =
        check_fields_total s fields (validate_against_contract fields (contract_of g table))
          located in
      let e' : (checked_against_contract fields (contract_of g table)
            >>= check_fields g table s fields)
          ≡ ok s' =
        subst (λ r. (r >>= check_fields g table s fields) ≡ ok s') (sym checked) e in
      elim (Bool-cases s.passed) [
        | inl passed ↦ (s', ground arith)
        | inr failed ↦ (s, ground arith)
      ]

conclude-IsRecorded :
    (q : Request) (o : GateOutcome) (s : Stage) → IsRecorded q.has_db (conclude q o s)
unfolding conclude
conclude-IsRecorded q o s = elim (Bool-cases s.passed) [
  | inl passed ↦ inl (ground arith, ground arith)
  | inr failed ↦ inr (ground arith, ground arith)
]

-- If the persist fields of a request hold the locator columns of the table, and no nan or
-- infinity in a NUMERIC column, the e-commerce door raises nothing; a pass leaves no reject row,
-- and a rejection leaves exactly one if there is a session and none otherwise.
pub evaluate_ecommerce-IsRecorded :
    (g : Gate) (db : Marketplaces) (q : Request) (cache : Cache)
    → IsLocated q.table q.persist_fields
    → IsNumeric g q.table q.persist_fields
    → Returns (λ r. IsRecorded q.has_db (r.0)) (evaluate_ecommerce g db q cache)
unfolding evaluate_ecommerce
evaluate_ecommerce-IsRecorded g db q cache located numeric =
    let rules = evaluate_ecommerce_rules db q.extracted q.marketplace_id cache in
    let (s, e) =
      persist_stage_total g q.table (check_role rules.0 (role_of q)) q.persist_fields located
        numeric in
    rw (e, evaluate_ecommerce) (conclude-IsRecorded q rules.0 s)
