-- ===== src/Firewall/Ecommerce/Laws.antt =====
-- What the e-commerce door decides.
use imperecta.Base.{
  String, ◌≡◌, refl, Bool, true, false, Option, none, some, List, [], ◌∷◌, arith, Dict, ok,
  >>=-eq-ok, ◌>>=◌, or_else, Bool-cases, inl, inr,
}
use mathlib.Core.Path.{subst, sym, ap}
use imperecta.Payload.{Value}
use imperecta.Signing.{SignedRecord}
use imperecta.Contracts.{ColumnContract}
use imperecta.Rules.{GateOutcome, passed, evaluate_ecommerce_rules}
use imperecta.Rules.Currency.{Marketplaces, Cache}
use imperecta.Firewall.{Gate, Decision, RejectRow, sign_fields}
use imperecta.Firewall.Decided.{IsSigned, sign_fields-IsSigned}
use imperecta.Firewall.Validate.{validate_against_contract, checked_against_contract}
use imperecta.Firewall.Validate.Raising.{checked-ok}
use imperecta.Firewall.Logs.{if_db}
use imperecta.Firewall.Ecommerce.{
  Stage, Request, is_non_product, check_role, set_signature, check_fields, persist_stage, role_of,
  ecommerce_row, conclude, evaluate_ecommerce,
}

abbrev pub contract_of : Gate → String → Dict ColumnContract
contract_of g table = or_else (g.fact_table_contracts table) []

module _ (g : Gate) (table : String) where
  -- what a passing record carries: nothing to sign, or a valid payload with its signature
  abbrev pub SignedFor : Option (Dict Value) → Option SignedRecord → Type 0
  SignedFor none signed_record = signed_record ≡ none
  SignedFor (some fields) signed_record =
      ((validate_against_contract fields (contract_of g table)).0 ≡ true)
      × ((r : SignedRecord) × (signed_record ≡ some r) × IsSigned g table "insert" fields r)

  set_signature-passed :
      (s : Stage) (fields : Dict Value) (o : Option SignedRecord)
      → sign_fields g table "insert" fields ≡ ok o
      → (set_signature g table s o).passed ≡ true
      → (r : SignedRecord) × ((set_signature g table s o).signed_record ≡ some r)
        × IsSigned g table "insert" fields r
  unfolding set_signature
  set_signature-passed s fields none signed h = absurd (cc)
  set_signature-passed s fields (some r) signed h =
      (r, refl, sign_fields-IsSigned g table "insert" fields r signed)

  check_fields-passed :
      (s s' : Stage) (fields : Dict Value) (v : Bool × List String × Option String)
      → validate_against_contract fields (contract_of g table) ≡ v
      → check_fields g table s fields v ≡ ok s'
      → s'.passed ≡ true
      → SignedFor (some fields) s'.signed_record
  unfolding check_fields
  check_fields-passed s s' fields (false, failed, reason) e h passes = absurd (ground arith)
  check_fields-passed s s' fields (true, failed, reason) e h passes =
      let (o, signed, e') = >>=-eq-ok (sign_fields g table "insert" fields) _ h in
      let e'' : set_signature g table s o ≡ s' = ground arith in
      (
        ground arith,
        subst
            (λ t.
              (r : SignedRecord) × (t.signed_record ≡ some r) × IsSigned g table "insert" fields r)
            e''
            (set_signature-passed s fields o signed
              (subst (λ t. t.passed ≡ true) (sym e'') passes)),
      )

  unwrapped :
      (s s' : Stage) (fields : Dict Value)
      → s.passed ≡ true
      → persist_stage g table s (some fields) ≡ ok s'
      → (checked_against_contract fields (contract_of g table) >>= check_fields g table s fields)
        ≡ ok s'
  unfolding persist_stage
  unwrapped s s' fields e h = ground arith

  persist_stage-passed :
      (s s' : Stage) (pf : Option (Dict Value))
      → s.signed_record ≡ none
      → persist_stage g table s pf ≡ ok s'
      → s'.passed ≡ true
      → (s.passed ≡ true) × SignedFor pf s'.signed_record
  unfolding persist_stage
  persist_stage-passed s s' none unsigned h passes = (ground arith, ground arith)
  persist_stage-passed s s' (some fields) unsigned h passes = elim (Bool-cases s.passed) [
    | inr e ↦ absurd (ground arith)
    | inl e ↦ (
      e,
      let (v, checked, e') =
            >>=-eq-ok (checked_against_contract fields (contract_of g table)) _
              (unwrapped s s' fields e h) in
          check_fields-passed s s' fields v (checked-ok fields (contract_of g table) v checked) e'
            passes,
    )
  ]

check_role-passed :
    (o : GateOutcome) (role : Option String)
    → (check_role o role).passed ≡ true
    → (passed o ≡ true) × (is_non_product role ≡ false)
unfolding check_role
check_role-passed o role h = (ground arith, ground arith)

check_role-unsigned :
    (o : GateOutcome) (role : Option String) → (check_role o role).signed_record ≡ none
unfolding check_role
check_role-unsigned o role = ground arith

module _ (g : Gate) (db : Marketplaces) (q : Request) (cache cache' : Cache) (d : Decision)
    (returned : evaluate_ecommerce g db q cache ≡ ok (d, cache')) where
  abbrev pub rules : GateOutcome
  rules = (evaluate_ecommerce_rules db q.extracted q.marketplace_id cache).0

  stage_of :
      (s : Stage) × (persist_stage g q.table (check_role rules (role_of q)) q.persist_fields ≡ ok s)
      × (conclude q rules s ≡ d)
  unfolding evaluate_ecommerce
  stage_of =
      let (s, staged, e) =
        >>=-eq-ok (persist_stage g q.table (check_role rules (role_of q)) q.persist_fields) _
          returned in
      (s, staged, ground arith)

  -- A record passes the e-commerce door only if all five checks pass, its page is no listing and no
  -- hub, and, where persist fields are given, these satisfy the table's contract and are signed for
  -- an insert into the table; it then leaves no reject row.
  pub evaluate_ecommerce_passed :
      d.outcome.passed ≡ true
      → (passed rules ≡ true)
        × (is_non_product (role_of q) ≡ false)
        × SignedFor g q.table q.persist_fields d.outcome.signed_record
        × (d.rejects ≡ [])
  unfolding conclude
  evaluate_ecommerce_passed passes =
      let (s, staged, concluded) = stage_of in
      let s_passes : s.passed ≡ true = ground arith in
      let (before, signed) =
        persist_stage-passed g q.table (check_role rules (role_of q)) s q.persist_fields
          (check_role-unsigned rules (role_of q)) staged s_passes in
      let (gate, role) = check_role-passed rules (role_of q) before in
      (
        gate,
        role,
        subst (SignedFor g q.table q.persist_fields) (ap (λ x. x.outcome.signed_record) concluded)
            signed,
        ground arith,
      )

  -- A record that the e-commerce door rejects leaves, given a session, exactly one reject row: for
  -- the call's table, marketplace and listing, with the outcome's rules.
  pub evaluate_ecommerce_rejected :
      d.outcome.passed ≡ false
      → (row : RejectRow) × (d.rejects ≡ if_db q.has_db (row ∷ []))
        × (row.table_target ≡ q.table)
        × (row.marketplace_id ≡ some q.marketplace_id)
        × (row.listing_id ≡ q.listing_id)
        × (row.failed_rules ≡ d.outcome.failed_rules)
        × (row.reject_reason ≡ or_else d.outcome.reject_reason "data_firewall_reject")
  unfolding conclude
  evaluate_ecommerce_rejected fails =
      let (s, staged, concluded) = stage_of in
      (
        ecommerce_row q s,
        ground arith,
        ground arith,
        ground arith,
        ground arith,
        ground arith,
        ground arith,
      )
