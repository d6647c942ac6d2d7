-- ===== src/Examples/Products.antt =====
-- Calls of the five checks and of the e-commerce door.
use imperecta.Firewall.Validate.Raising.{finite-not_raised}
use imperecta.Wire.Utf8.{utf8}
use imperecta.Wire.Prefix.{lp_string}
use imperecta.Wire.Decimal.{str_int, decimal}
use imperecta.Signing.{signing_secret, sign, dict_enc, canonical_serialize_signed_payload}
use imperecta.Contracts.{table_locators, extract_locator}
use imperecta.Firewall.Validate.{
  numeric_raises, entry_raises, validation_raises, checked_against_contract, type_mismatch,
  tuple_fits, too_long, numeric_fits, int_digits, frac_digits, column_failures, bad_check, as_tuple,
  entry_failures, payload_failures, validate_against_contract,
}
use imperecta.Base.{sorted, ◌≡◌, refl, true, false, none, some, [], ◌∷◌, Dict, ok, negsuc}
use imperecta.Payload.{str_of, is_blank, Value, str, Float}
use imperecta.Rules.{finite, is_positive, Extracted, passed, evaluate_ecommerce_rules}
use imperecta.Rules.Currency.{
  strip, whitelist_for, Marketplaces, Cache, accepts, matches, whitelist,
}
use imperecta.Rules.Currency.Memo.{IsFresh, matches-whitelist}
use imperecta.Firewall.{signed_with, sign_fields, Decision}
use imperecta.Firewall.Ecommerce.{
  page_role_verdict, failed_rules_from_gate, extract_snapshot, check_role, persist_stage, Request,
  conclude, evaluate_ecommerce, is_non_product, role_of,
}
use imperecta.Firewall.Ecommerce.Laws.{SignedFor, rules, evaluate_ecommerce_passed}
use imperecta.Base.{Returns, get}
use imperecta.Contracts.{table_locators}
use imperecta.Firewall.Ecommerce.Total.{IsRecorded, evaluate_ecommerce-IsRecorded}
use imperecta.Examples.{gate}

abbrev price : Float
price = record {
  text = "9.99";
  decimal = record { negative = false; digits = 9 ∷ 9 ∷ 9 ∷ []; exponent = negsuc 1 };
  g15 = "9.99";
}

abbrev shops : Marketplaces
shops = record {
  marketplace = λ id.
      some (record {
        country_code = some "DE";
        currency_code = some "EUR";
        allowed_currencies = none;
      });
  country_currency = λ code. some "EUR";
  upper = λ s. s;
}

abbrev chair : Extracted
chair = record {
  product_name = some "Chair";
  title = none;
  price = some (finite price);
  currency = some "EUR";
  currency_raw = some "EUR";
  page_role = some "product";
}

-- a currency that the marketplace does not accept
abbrev foreign : Extracted
foreign = record chair { currency = some "XYZ" }

no_memo : IsFresh shops []
no_memo = record { at_key = λ id allowed h. absurd (cc) }

matches-whitelist_example :
    ((matches shops "m1" (some "EUR") []).0 ≡ accepts shops (whitelist shops "m1") (some "EUR"))
    × IsFresh shops (matches shops "m1" (some "EUR") []).1
matches-whitelist_example = matches-whitelist shops "m1" (some "EUR") [] no_memo

abbrev fields : Dict Value
fields = ("url_hash", str "ab") ∷ ("name", str "Chair") ∷ []

abbrev sale : Request
sale = record {
  extracted = chair;
  marketplace_id = "m1";
  page_role = none;
  persist_fields = some fields;
  table = "fact_listing";
  has_db = true;
  reject_source = "scraper";
  listing_id = some "l1";
}

abbrev hub : Request
hub = record sale { page_role = some "hub" }

abbrev memo : Cache
memo = ("m1", "EUR" ∷ "EUR" ∷ "USD" ∷ "EUR" ∷ []) ∷ []

abbrev sold : Decision
sold = conclude sale (evaluate_ecommerce_rules shops chair "m1" []).0 (record {
  passed = true;
  reject_reason = none;
  failed_rules = [];
  forced_log_status = none;
  signed_record = some (record {
    table = "fact_listing";
    operation = "insert";
    locator = ("url_hash", str "ab") ∷ [];
    fields = fields;
    signature = "digest";
  });
})

abbrev turned_away : Decision
turned_away = conclude hub (evaluate_ecommerce_rules shops chair "m1" []).0 (record {
  passed = false;
  reject_reason = some "not_a_product";
  failed_rules = "page_role_not_product" ∷ [];
  forced_log_status = some "not_a_product";
  signed_record = none;
})

sale_returned : evaluate_ecommerce gate shops sale [] ≡ ok (sold, memo)
unfolding evaluate_ecommerce persist_stage check_role passed evaluate_ecommerce_rules is_positive
    is_blank matches accepts whitelist_for whitelist strip is_non_product role_of
    validate_against_contract payload_failures entry_failures sorted extract_locator table_locators
    conclude extract_snapshot failed_rules_from_gate page_role_verdict as_tuple bad_check
    column_failures frac_digits int_digits numeric_fits too_long tuple_fits type_mismatch
    sign_fields signed_with str_of canonical_serialize_signed_payload dict_enc sign signing_secret
    decimal str_int lp_string utf8 checked_against_contract validation_raises entry_raises
    numeric_raises
sale_returned = refl

hub_returned : evaluate_ecommerce gate shops hub [] ≡ ok (turned_away, memo)
unfolding evaluate_ecommerce persist_stage check_role passed evaluate_ecommerce_rules is_positive
    is_blank matches accepts whitelist_for whitelist strip is_non_product role_of
hub_returned = refl

sold_passed : sold.outcome.passed ≡ true
unfolding conclude
sold_passed = refl

hub_failed : turned_away.outcome.passed ≡ false
unfolding conclude
hub_failed = refl

evaluate_ecommerce_passed_example :
    (passed (rules gate shops sale [] memo sold sale_returned) ≡ true)
    × (is_non_product (role_of sale) ≡ false)
    × SignedFor gate "fact_listing" (some fields) sold.outcome.signed_record
    × (sold.rejects ≡ [])
evaluate_ecommerce_passed_example =
    evaluate_ecommerce_passed gate shops sale [] memo sold sale_returned sold_passed

by_url : get table_locators "fact_listing" ≡ some ("url_hash" ∷ [])
unfolding table_locators
by_url = refl

evaluate_ecommerce-IsRecorded_example :
    Returns (λ r. IsRecorded true (r.0)) (evaluate_ecommerce gate shops hub [])
evaluate_ecommerce-IsRecorded_example =
    evaluate_ecommerce-IsRecorded gate shops hub [] ("url_hash" ∷ [], by_url, refl)
      (finite-not_raised _ _ refl)
