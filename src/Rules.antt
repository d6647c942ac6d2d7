-- ===== src/Rules.antt =====
-- backend/app/modules/data_firewall/rules.py: the five checks on a scraped product, and the
-- currencies that a marketplace accepts (`Currency`). Proofs are in `Verdict` and `Currency.Memo`.
pub mod Currency
pub mod Verdict
use Prim.Native.String.{count}
use imperecta.Base.{
  ℕ, String, Bool, true, false, not, ◌&&◌, ◌||◌, Option, none, some, List, [], ◌∷◌, ltb, ◌=?◌,
  if◌then◌else◌, ◌==◌, or_else, Dict, is_empty,
}
use imperecta.Payload.{Float, DecimalTuple, is_blank}
use imperecta.Rules.Currency.{Marketplaces, Cache, matches}

-- a `float`, which may be nan or an infinity, by its `str`
pub data Price : Type 0 where
  finite : Float → Price
  special : String → Price

-- `_ExtractedLike`, with the page role that the firewall reads. The payload `None` reads like the
-- record whose fields are all `None`.
pub record Extracted : Type 0 where
  pub product_name : Option String
  pub title : Option String
  pub price : Option Price
  pub currency : Option String
  pub currency_raw : Option String
  pub page_role : Option String

pub record GateOutcome : Type 0 where
  pub product_name_ok : Bool
  pub price_ok : Bool
  pub currency_ok : Bool
  pub currency_raw_sane_ok : Bool
  pub currency_country_match_ok : Bool
  pub skip_reason : Option String
  pub forced_log_status : Option String

unfoldable pub passed : GateOutcome → Bool
passed o =
    o.product_name_ok && o.price_ok && o.currency_ok && o.currency_raw_sane_ok
    && o.currency_country_match_ok

-- `bool(text)` of `str | None`
abbrev pub is_given : Option String → Bool
is_given none = false
is_given (some s) = not (s == "")

-- some digit is not 0
any_nonzero : List ℕ → Bool
any_nonzero [] = false
any_nonzero (d ∷ ds) = not (d =? 0) || any_nonzero ds

-- `value > 0` of a float
unfoldable pub is_positive : Float → Bool
unfolding any_nonzero
is_positive f = not f.decimal.negative && any_nonzero f.decimal.digits

abbrev pub price_positive : Option Price → Bool
price_positive none = false
price_positive (some (finite price)) = is_positive price
price_positive (some (special s)) = s == "inf"

abbrev pub currency_given : Option String → Bool
currency_given none = false
currency_given (some currency) = not (is_blank currency)

abbrev pub max_currency_raw_len : ℕ
max_currency_raw_len = 50

-- the reason and the log status of a failed check, by the order of the tests
verdict : (name price currency raw country : Bool) → Option String × Option String
verdict name price currency raw country =
    if name && price && currency && raw && country
    then (none, none)
    else if not name || not currency
    then (some "missing_name_or_currency", none)
    else if not price
    then (some "price_not_positive", none)
    else if not raw
    then (some "currency_raw_too_long", some "currency_rejected")
    else if not country
    then (some "currency_country_mismatch", some "currency_rejected")
    else (none, none)

module _ (db : Marketplaces) where
  -- returns the memo of the resolver too
  unfoldable pub evaluate_ecommerce_rules : Extracted → String → Cache → GateOutcome × Cache
  unfolding verdict
  evaluate_ecommerce_rules extracted marketplace_id cache =
      let name = is_given extracted.product_name || is_given extracted.title in
      let price = price_positive extracted.price in
      let currency = currency_given extracted.currency in
      let raw = ltb (count (or_else extracted.currency_raw "")) max_currency_raw_len in
      let (country, cache') = matches db marketplace_id extracted.currency cache in
      let (skip, forced) = verdict name price currency raw country in
      (
        record {
          product_name_ok = name;
          price_ok = price;
          currency_ok = currency;
          currency_raw_sane_ok = raw;
          currency_country_match_ok = country;
          skip_reason = skip;
          forced_log_status = forced;
        },
        cache',
      )
