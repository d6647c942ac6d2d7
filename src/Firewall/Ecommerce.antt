-- ===== src/Firewall/Ecommerce.antt =====
-- `evaluate_ecommerce` of backend/app/modules/data_firewall/firewall.py: the door for scraped
-- products. The theorems are in `Laws` and `Total`.
pub mod Laws
pub mod Total
use imperecta.Base.{
  String, Bool, true, false, not, ◌&&◌, ◌||◌, Option, none, some, List, [], ◌∷◌, ◌++◌, Dict, Result,
  ok, ◌>>=◌, or_else, if◌then◌else◌, ◌==◌, elem,
}
use imperecta.Payload.{Value, str, null, float, not_finite}
use imperecta.Signing.{SignedRecord}
use imperecta.Contracts.{ColumnContract}
use imperecta.Rules.{
  Price, finite, special, Extracted, GateOutcome, passed, evaluate_ecommerce_rules,
}
use imperecta.Rules.Currency.{Marketplaces, Cache}
use imperecta.Firewall.{
  Gate, Note, text, FirewallOutcome, RejectRow, Decision, reject_row, sign_fields,
}
use imperecta.Firewall.Validate.{rule, checked_against_contract}
use imperecta.Firewall.Logs.{if_db}

unfoldable pub failed_rules_from_gate : GateOutcome → List String
failed_rules_from_gate o =
    rule (not o.product_name_ok) "product_name_ok"
    ++ rule (not o.price_ok) "price_ok"
    ++ rule (not o.currency_ok) "currency_ok"
    ++ rule (not o.currency_raw_sane_ok) "currency_raw_sane_ok"
    ++ rule (not o.currency_country_match_ok) "currency_country_match_ok"

unfoldable pub is_non_product : Option String → Bool
is_non_product none = false
is_non_product (some role) = role == "listing" || role == "hub"

unfoldable pub page_role_verdict : Option String → Option String
unfolding is_non_product
page_role_verdict none = none
page_role_verdict (some role) = some (
    if role == "product"
    then "product"
    else if role == "listing" || role == "hub"
    then "non_product"
    else "unknown")

abbrev text_value : Option String → Value
text_value none = null
text_value (some s) = str s

abbrev price_value : Option Price → Value
price_value none = null
price_value (some (finite price)) = float price
price_value (some (special s)) = not_finite s

unfoldable pub extract_snapshot : Extracted → Dict Value
extract_snapshot x =
    ("product_name", text_value x.product_name)
    ∷ ("title", text_value x.title)
    ∷ ("price", price_value x.price)
    ∷ ("currency", text_value x.currency)
    ∷ ("currency_raw", text_value x.currency_raw)
    ∷ ("page_role", text_value x.page_role)
    ∷ []

-- the local variables `passed`, `reject_reason`, `failed_rules`, `forced_log_status` and
-- `signed_record`
pub record Stage : Type 0 where
  pub passed : Bool
  pub reject_reason : Option String
  pub failed_rules : List String
  pub forced_log_status : Option String
  pub signed_record : Option SignedRecord

-- after the five checks and the page role
unfoldable pub check_role : GateOutcome → Option String → Stage
unfolding failed_rules_from_gate
check_role o role =
    if passed o && is_non_product role
    then record {
      passed = false;
      reject_reason = some "not_a_product";
      failed_rules = "page_role_not_product" ∷ [];
      forced_log_status = some "not_a_product";
      signed_record = none;
    }
    else record {
      passed = passed o;
      reject_reason = o.skip_reason;
      failed_rules = failed_rules_from_gate o;
      forced_log_status = o.forced_log_status;
      signed_record = none;
    }

module _ (g : Gate) (table : String) where
  set_signature : Stage → Option SignedRecord → Stage
  set_signature s (some r) = record s { signed_record = some r }
  set_signature s none = record s {
    passed = false;
    reject_reason = some "signing_unavailable";
    failed_rules = "signing_secret_missing" ∷ [];
    forced_log_status = some "persist_failed";
  }

  check_fields : Stage → Dict Value → Bool × List String × Option String → Result Stage
  unfolding set_signature
  check_fields s fields (false, failed, reason) = ok (record s {
    passed = false;
    reject_reason = reason;
    failed_rules = failed;
    forced_log_status = some "currency_rejected";
  })
  check_fields s fields (true, failed, reason) = do
    signed ← sign_fields g table "insert" fields
    ok (set_signature s signed)

  -- the contract of the persist payload, if the record passed so far; an unknown table has none
  unfoldable pub persist_stage : Stage → Option (Dict Value) → Result Stage
  unfolding check_fields
  persist_stage s none = ok s
  persist_stage s (some fields) =
      let next = (do
        verdict ← checked_against_contract fields (or_else (g.fact_table_contracts table) [])
        check_fields s fields verdict) in
      if s.passed then next else ok s

-- the arguments of a call
pub record Request : Type 0 where
  pub extracted : Extracted
  pub marketplace_id : String
  pub page_role : Option String
  pub persist_fields : Option (Dict Value)
  pub table : String
  pub has_db : Bool
  pub reject_source : String
  pub listing_id : Option String

unfoldable pub role_of : Request → Option String
role_of q = elim q.page_role [ some role ↦ some role | none ↦ q.extracted.page_role ]

ecommerce_row : Request → Stage → RejectRow
ecommerce_row q s = record {
  source = q.reject_source;
  table_target = q.table;
  reject_reason = or_else s.reject_reason "data_firewall_reject";
  failed_rules = s.failed_rules;
  raw_payload = or_else q.persist_fields (extract_snapshot q.extracted);
  marketplace_id = some q.marketplace_id;
  listing_id = q.listing_id;
  operation = "insert";
}

unfoldable pub conclude : Request → GateOutcome → Stage → Decision
unfolding ecommerce_row
conclude q o s = record {
  outcome = record {
    passed = s.passed;
    reject_reason = s.reject_reason;
    failed_rules = s.failed_rules;
    forced_log_status = s.forced_log_status;
    page_role_verdict = page_role_verdict (role_of q);
    notes = ("page_role", text (role_of q)) ∷ [];
    product_name_ok = o.product_name_ok;
    price_ok = o.price_ok;
    currency_ok = o.currency_ok;
    currency_raw_sane_ok = o.currency_raw_sane_ok;
    currency_country_match_ok = o.currency_country_match_ok;
    signed_record = s.signed_record;
  };
  rejects = if s.passed then [] else if_db q.has_db (ecommerce_row q s ∷ []);
}

module _ (g : Gate) (db : Marketplaces) where
  -- returns the memo of the currency resolver too
  unfoldable pub evaluate_ecommerce : Request → Cache → Result (Decision × Cache)
  evaluate_ecommerce q cache = do
    let (o, cache') = evaluate_ecommerce_rules db q.extracted q.marketplace_id cache
    s ← persist_stage g q.table (check_role o (role_of q)) q.persist_fields
    ok (conclude q o s, cache')
