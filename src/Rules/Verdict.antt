-- ===== src/Rules/Verdict.antt =====
-- The verdict of the five checks and the reason that it gives.
use imperecta.Base.{String, ◌≡◌, ◌↔◌, ◌⊎◌, Bool, true, false, none, some, arith}
use imperecta.Rules.Currency.{Marketplaces, Cache}
use imperecta.Rules.{Extracted, GateOutcome, passed, verdict, evaluate_ecommerce_rules}

verdict_passed :
    (name price currency raw country : Bool)
    → ((verdict name price currency raw country).0 ≡ none)
      ↔ ((name ≡ true) × (price ≡ true) × (currency ≡ true) × (raw ≡ true) × (country ≡ true))
unfolding verdict
verdict_passed name price currency raw country = (λ h. ground arith, λ h. ground arith)

module _ (db : Marketplaces) (x : Extracted) (id : String) (cache : Cache) where
  abbrev pub outcome : GateOutcome
  outcome = (evaluate_ecommerce_rules db x id cache).0

  -- A record passes exactly when no skip reason is given.
  pub passed-iff_no_skip_reason : (passed outcome ≡ true) ↔ (outcome.skip_reason ≡ none)
  unfolding evaluate_ecommerce_rules passed
  passed-iff_no_skip_reason = (λ h. ground arith, λ h. ground arith)

  -- The log status is forced to `currency_rejected` exactly when name, price and currency are fine
  -- and the raw currency text is too long or the country does not match; it is forced to nothing
  -- else.
  pub forced_status-iff_currency_rejected :
      ((outcome.forced_log_status ≡ some "currency_rejected") ↔ (
        (outcome.product_name_ok ≡ true)
        × (outcome.price_ok ≡ true)
        × (outcome.currency_ok ≡ true)
        × ((outcome.currency_raw_sane_ok ≡ false) ⊎ (outcome.currency_country_match_ok ≡ false))))
      × ((outcome.forced_log_status ≡ none)
          ⊎ (outcome.forced_log_status ≡ some "currency_rejected"))
  unfolding evaluate_ecommerce_rules
  forced_status-iff_currency_rejected = ((λ h. ground arith, λ h. ground arith), ground arith)
