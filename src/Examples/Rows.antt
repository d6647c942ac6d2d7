-- ===== src/Examples/Rows.antt =====
-- Calls of the entry points of the firewall.
use imperecta.Firewall.Validate.Raising.{finite-not_raised}
use imperecta.Firewall.Logs.{rows_raise}
use imperecta.Firewall.Logs.Accounting.{AreNumeric}
use imperecta.Contracts.{table_locators}
use imperecta.Base.{
  Returns, get, String, ◌≡◌, ◌≢◌, refl, true, false, none, some, List, [], ◌∷◌, Dict, ok, pos,
  negsuc, keep,
}
use imperecta.Payload.{is_blank, str_of, Value, str, boolean, Float}
use imperecta.Signing.{sign, signing_secret, sign_batch, SignedBatch}
use imperecta.Contracts.{table_locators, extract_locator, ColumnContract}
use imperecta.Firewall.{signed_with, sign_fields, reject_row, Decision, accept, text}
use imperecta.Firewall.Validate.{
  checked_against_contract, numeric_raises, entry_raises, validation_raises, column_failures,
  entry_failures, payload_failures, validate_against_contract,
}
use imperecta.Firewall.Logs.{sort_rows, LogsDecision, evaluate_logs}
use imperecta.Firewall.Logs.Accounting.{Accounts, evaluate_logs-Accounts_total}
use imperecta.Firewall.Logs.Signed.{Carries, passes, evaluate_logs-Carries}
use imperecta.Firewall.Market.{evaluate_market}
use imperecta.Firewall.Market.Laws.{evaluate_market_valid}
use imperecta.Examples.{gate, contract}

abbrev price : Float
price = record {
  text = "9.99";
  decimal = record { negative = false; digits = 9 ∷ 9 ∷ 9 ∷ []; exponent = negsuc 1 };
  g15 = "9.99";
}

abbrev huge : Float
huge = record {
  text = "1e+22";
  decimal = record { negative = false; digits = 1 ∷ []; exponent = pos 22 };
  g15 = "1e+22";
}

abbrev row : Dict Value
row = ("role", str "user") ∷ ("content", str "hi") ∷ ("is_active", boolean true) ∷ []

abbrev bad_row : Dict Value
bad_row = ("role", str "robot") ∷ []

valid : (validate_against_contract row contract).0 ≡ true
unfolding validate_against_contract payload_failures entry_failures column_failures str_of
valid = refl

abbrev roles : List String
roles = "user" ∷ "assistant" ∷ []

role_listed : roles ≢ []
role_listed h = absurd (cc)

abbrev batch : SignedBatch
batch = record {
  table = "api_logs";
  operation = "insert";
  locator = [];
  rows = row ∷ [];
  signature = "digest";
}

abbrev logs : LogsDecision
logs = record {
  outcome = record { inserted_count = 1; rejected_count = 1; signed_batch = some batch };
  rejects =
      record {
        source = "api_log";
        table_target = "api_logs";
        reject_reason = "contract_violation";
        failed_rules = "check:role" ∷ [];
        raw_payload = bad_row;
        marketplace_id = none;
        listing_id = none;
        operation = "insert";
      }
      ∷ [];
}

logs_returned : evaluate_logs gate true "api_log" "api_logs" (row ∷ bad_row ∷ []) ≡ ok logs
unfolding evaluate_logs sort_rows validate_against_contract payload_failures entry_failures
    column_failures str_of extract_locator table_locators sign_batch signing_secret is_blank
    reject_row rows_raise validation_raises entry_raises numeric_raises
logs_returned = refl

no_locator : get table_locators "api_logs" ≡ some []
unfolding table_locators
no_locator = refl

rows_numeric : AreNumeric gate true "api_log" "api_logs" (row ∷ bad_row ∷ [])
unfolding rows_raise
rows_numeric contract known =
    rw (finite-not_raised row contract refl, finite-not_raised bad_row contract refl) refl

evaluate_logs-Accounts_total_example :
    Returns (Accounts true 2) (evaluate_logs gate true "api_log" "api_logs" (row ∷ bad_row ∷ []))
evaluate_logs-Accounts_total_example =
    evaluate_logs-Accounts_total gate true "api_log" "api_logs" (row ∷ bad_row ∷ []) no_locator
      rows_numeric

evaluate_logs-Carries_example :
    (c : Dict ColumnContract) × (gate.fact_table_contracts "api_logs" ≡ some c)
    × Carries gate "api_logs" (keep (passes c) (row ∷ bad_row ∷ [])) batch
evaluate_logs-Carries_example =
    evaluate_logs-Carries gate true "api_log" "api_logs" (row ∷ bad_row ∷ []) logs batch
      logs_returned refl

abbrev user_row : Dict Value
user_row = ("id", str "7") ∷ ("name", str "Ann") ∷ []

abbrev decision : Decision
decision = accept (("table", text (some "users")) ∷ []) (record {
  table = "users";
  operation = "insert";
  locator = ("id", str "7") ∷ [];
  fields = user_row;
  signature = "digest";
})

market_returned : evaluate_market gate true "meta" "users" "insert" user_row ≡ ok decision
unfolding evaluate_market validate_against_contract payload_failures entry_failures column_failures
    sign_fields extract_locator table_locators accept signed_with sign signing_secret is_blank
    checked_against_contract validation_raises entry_raises numeric_raises
market_returned = refl

decision_passed : decision.outcome.passed ≡ true
unfolding accept
decision_passed = refl

by_id : get table_locators "users" ≡ some ("id" ∷ [])
unfolding table_locators
by_id = refl

evaluate_market_valid_example :
    (c : Dict ColumnContract) × (gate.fact_table_contracts "users" ≡ some c)
    × ((validate_against_contract user_row c).0 ≡ true)
evaluate_market_valid_example =
    evaluate_market_valid gate true "meta" "users" "insert" user_row decision market_returned
      decision_passed
