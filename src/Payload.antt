-- ===== src/Payload.antt =====
-- The values that a payload of backend/app/modules/data_firewall carries, and `canonical_str` of
-- signing.py. A value whose inside the code never opens is kept as the texts that the code reads
-- off it: those of `isoformat`, `str`, `format(value, ".15g")` and `json.dumps`; a dict or list that
-- `json.dumps` cannot write, and an integer too long for `str`, are left out.
use Prim.Native.Char.{code}
use Prim.Native.String as S
use imperecta.Base.{
  ℕ, String, Bool, true, false, ◌&&◌, ◌||◌, Option, none, some, List, leb, ◌=?◌, if◌then◌else◌, ℤ,
  Dict, get, or_else,
}
use imperecta.Wire.Decimal.{str_int}

-- `Decimal(str(value)).as_tuple()` of a finite float
pub record DecimalTuple : Type 0 where
  pub negative : Bool
  pub digits : List ℕ
  pub exponent : ℤ

-- A finite `float`: its `str`, the decimal which that spells, and its 15 digits.
pub record Float : Type 0 where
  pub text : String
  pub decimal : DecimalTuple
  pub g15 : String

pub data Value : Type 0 where
  null : Value
  boolean : Bool → Value
  integer : ℤ → Value
  decimal_number : String → Value  -- `str`
  float : Float → Value
  not_finite : String → Value  -- a float that is nan or an infinity: `str`
  datetime : String → String → Value  -- `isoformat`, `str`
  date : String → Value  -- `isoformat`, which is `str`
  uuid : String → Value  -- `str`
  str : String → Value
  json : String → String → Value  -- a dict or a list: `json.dumps`, `str`

unfoldable pub canonical_str : Value → Option String
unfolding str_int
canonical_str null = none
canonical_str (boolean b) = some (if b then "true" else "false")
canonical_str (integer z) = some (str_int z)
canonical_str (decimal_number s) = some s
canonical_str (float f) = some f.g15
canonical_str (not_finite s) = some s
canonical_str (datetime iso s) = some iso
canonical_str (date iso) = some iso
canonical_str (uuid s) = some s
canonical_str (str s) = some s
canonical_str (json dumped s) = some dumped

-- `str(value)`
unfoldable pub str_of : Value → String
unfolding str_int
str_of null = "None"
str_of (boolean b) = if b then "True" else "False"
str_of (integer z) = str_int z
str_of (decimal_number s) = s
str_of (float f) = f.text
str_of (not_finite s) = s
str_of (datetime iso s) = s
str_of (date iso) = iso
str_of (uuid s) = s
str_of (str s) = s
str_of (json dumped s) = s

-- `d.get(k)`: a missing key and a stored `None` read alike
abbrev pub read : Dict Value → String → Value
read d k = or_else (get d k) null

abbrev pub is_null : Value → Bool
is_null null = true
is_null _ = false

-- `value is True`
abbrev pub is_true : Value → Bool
is_true (boolean true) = true
is_true _ = false

-- `value is False`
abbrev pub is_false : Value → Bool
is_false (boolean false) = true
is_false _ = false

-- the characters that `str.strip` removes
is_space : ℕ → Bool
is_space c =
    (leb 9 c && leb c 13)
    || (leb 28 c && leb c 32)
    || c =? 133
    || c =? 160
    || c =? 5760
    || (leb 8192 c && leb c 8202)
    || c =? 8232
    || c =? 8233
    || c =? 8239
    || c =? 8287
    || c =? 12288

-- `text.strip() == ""`
unfoldable pub is_blank : String → Bool
unfolding is_space
is_blank S.String.[] = true
is_blank (S.String.◌∷◌ c s) = is_space (code c) && is_blank s
