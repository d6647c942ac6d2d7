-- ===== src/Firewall/Validate.antt =====
-- `_numeric_fits` and `_validate_against_contract` of
-- backend/app/modules/data_firewall/firewall.py.
pub mod Columns
pub mod Raising
pub mod Numeric
use Prim.Native.String.{count, ◌++◌ as ◌++ₛ◌}
use imperecta.Base.{
  ℕ, ◌+◌, ◌-◌, String, Bool, true, false, not, ◌&&◌, ◌||◌, Option, none, some, List, [], ◌∷◌, ◌++◌,
  map, ltb, leb, if◌then◌else◌, ◌==◌, ℤ, pos, negsuc, is_non_positive, Dict, get, elem, is_empty,
  length, is_none, Result, ok, value_error, type_error,
}
use imperecta.Wire.Decimal.{decimal}
use imperecta.Payload.{
  Value, null, boolean, integer, decimal_number, float, not_finite, datetime, date, uuid, str, json,
  is_null, str_of, DecimalTuple,
}
use imperecta.Rules.{is_positive}
use imperecta.Contracts.{ColumnContract}

abbrev magnitude : ℤ → ℕ
magnitude (pos n) = n
magnitude (negsuc n) = n + 1

abbrev is_negative : ℤ → Bool
is_negative (pos n) = false
is_negative (negsuc n) = true

-- `Decimal(str(value)).as_tuple()`; `none` where the constructor raises, as it does on "True", and
-- for nan and the infinities, whose exponent is no number
unfoldable pub as_tuple : Value → Option DecimalTuple
as_tuple (integer z) = some (record {
  negative = is_negative z;
  digits = map (λ c. c - 48) (decimal (magnitude z));
  exponent = pos 0;
})
as_tuple (float f) = some f.decimal
as_tuple _ = none

-- the digits before and behind the point, as the code counts them
unfoldable pub int_digits : List ℕ → ℤ → ℕ
int_digits digits (pos e) = length digits
int_digits digits (negsuc e) = length digits - (e + 1)

unfoldable pub frac_digits : ℤ → ℕ
frac_digits (pos e) = 0
frac_digits (negsuc e) = e + 1

unfoldable pub tuple_fits : DecimalTuple → ℕ → ℕ → Bool
unfolding int_digits frac_digits
tuple_fits t precision scale =
    leb (int_digits t.digits t.exponent + frac_digits t.exponent) precision
    && leb (frac_digits t.exponent) scale

unfoldable pub numeric_fits : Value → Option ℕ → Option ℕ → Bool
unfolding as_tuple tuple_fits
numeric_fits value none scale = true
numeric_fits value (some precision) none = true
numeric_fits value (some precision) (some scale) = elim (as_tuple value) [
  | none ↦ false
  | some t ↦ tuple_fits t precision scale
]

-- `isinstance` tests; a `bool` is an `int`
abbrev is_str : Value → Bool
is_str (str s) = true
is_str _ = false

abbrev is_int : Value → Bool
is_int (integer z) = true
is_int (boolean b) = true
is_int _ = false

abbrev is_bool : Value → Bool
is_bool (boolean b) = true
is_bool _ = false

abbrev is_number : Value → Bool
is_number (float f) = true
is_number (not_finite s) = true
is_number v = is_int v

abbrev is_uuid : Value → Bool
is_uuid (uuid s) = true
is_uuid v = is_str v

abbrev is_datetime : Value → Bool
is_datetime (datetime i s) = true
is_datetime v = is_str v

-- `value <= 0` of a number
abbrev number_non_positive : Value → Bool
number_non_positive (boolean b) = not b
number_non_positive (integer z) = is_non_positive z
number_non_positive (float f) = not (is_positive f)
number_non_positive (not_finite s) = s == "-inf"
number_non_positive _ = false

unfoldable pub type_mismatch : String → Value → Bool
type_mismatch expected value =
    (expected == "string" && not (is_str value))
    || ((expected == "integer" || expected == "smallint") && not (is_int value))
    || (expected == "boolean" && not (is_bool value))
    || (expected == "numeric" && not (is_number value))
    || (expected == "uuid" && not (is_uuid value))
    || (expected == "datetime" && not (is_datetime value))

abbrev positive_columns : List String
positive_columns = "price" ∷ "price_usd" ∷ "rate_to_eur" ∷ "rate_to_usd" ∷ []

-- a rule that fails when the test holds
abbrev pub rule : Bool → String → List String
rule true name = name ∷ []
rule false name = []

unfoldable pub too_long : ColumnContract → Value → Bool
too_long spec (str s) = elim spec.max_len [
  | none ↦ false
  | some m ↦ spec.type == "string" && ltb m (count s)
]
too_long spec _ = false

unfoldable pub bad_check : ColumnContract → Value → Bool
bad_check spec value = elim spec.check_values [
  | none ↦ false
  | some allowed ↦ not (is_empty allowed) && not (elem (str_of value) allowed)
]

-- the body of the loop: the rules that one column fails
unfoldable pub column_failures : String → Value → ColumnContract → List String
unfolding type_mismatch too_long bad_check
column_failures name value spec =
    if is_null value
    then rule (not spec.nullable) ("null:" ++ₛ name)
    else if type_mismatch spec.type value
    then ("type:" ++ₛ name) ∷ []
    else rule (too_long spec value) ("length:" ++ₛ name)
      ++ rule
          (spec.type == "numeric"
            && is_number value
            && not (numeric_fits value spec.precision spec.scale))
          ("precision:" ++ₛ name)
      ++ rule
          (spec.type == "numeric"
            && is_number value
            && number_non_positive value
            && elem name positive_columns)
          ("non_positive:" ++ₛ name)
      ++ rule (bad_check spec value) ("check:" ++ₛ name)

-- one round of the loop; a column without a contract is skipped
unfoldable pub entry_failures : String → Value → Dict ColumnContract → List String
entry_failures name value contract = elim (get contract name) [
  | none ↦ []
  | some spec ↦ column_failures name value spec
]

-- the loop over `record.items()`
unfoldable pub payload_failures : Dict Value → Dict ColumnContract → List String
payload_failures [] contract = []
payload_failures ((name, value) ∷ fields) contract =
    entry_failures name value contract ++ payload_failures fields contract

-- whether `_numeric_fits` raises TypeError: it compares the exponent of nan or of an infinity with 0
unfoldable pub numeric_raises : Value → ColumnContract → Bool
numeric_raises (not_finite s) spec =
    spec.type == "numeric" && not (is_none spec.precision) && not (is_none spec.scale)
numeric_raises _ spec = false

unfoldable pub entry_raises : String → Value → Dict ColumnContract → Bool
entry_raises name value contract = elim (get contract name) [
  | none ↦ false
  | some spec ↦ numeric_raises value spec
]

unfoldable pub validation_raises : Dict Value → Dict ColumnContract → Bool
validation_raises [] contract = false
validation_raises ((name, value) ∷ fields) contract =
    entry_raises name value contract || validation_raises fields contract

-- passed, failed rules, reject reason, where nothing raises
unfoldable pub validate_against_contract :
    Dict Value → Dict ColumnContract → Bool × List String × Option String
validate_against_contract fields contract =
    let failed = payload_failures fields contract in
    if is_empty failed then (true, [], none) else (false, failed, some "contract_violation")

-- `_validate_against_contract`
unfoldable pub checked_against_contract :
    Dict Value → Dict ColumnContract → Result (Bool × List String × Option String)
checked_against_contract fields contract =
    if validation_raises fields contract
    then type_error "'>=' not supported between instances of 'str' and 'int'"
    else ok (validate_against_contract fields contract)
