-- ===== src/Rules/Currency.antt =====
-- `CurrencyResolver` of backend/app/modules/data_firewall/rules.py: which currencies a marketplace
-- accepts, with the memo kept by each instance. The database is read through two lookups, and
-- `upper` is Python's `str.upper`; all three are parameters.
pub mod Memo
use Prim.Native.Char.{Char, code}
use Prim.Native.String as S
use Prim.Native.String.{count}
use imperecta.Base.{
  ℕ, String, Bool, true, false, ◌&&◌, ◌||◌, Option, none, some, List, [], ◌∷◌, ◌++◌, ◌=?◌,
  if◌then◌else◌, ◌==◌, or_else, Dict, get, insert, is_empty, elem,
}
use imperecta.Payload.{is_blank}

-- a `dim_marketplace` row; an entry of `allowed_currencies` that is no text is `none`
pub record Marketplace : Type 0 where
  pub country_code : Option String
  pub currency_code : Option String
  pub allowed_currencies : Option (List (Option String))

pub record Marketplaces : Type 0 where
  pub marketplace : String → Option Marketplace
  -- the currency text of the country with this code
  pub country_currency : String → Option String
  pub upper : String → String

abbrev pub Cache : Type 0
Cache = Dict (List String)

lstrip : String → String
lstrip S.String.[] = ""
lstrip (S.String.◌∷◌ c s) =
    if is_blank (S.String.◌∷◌ c S.String.[]) then lstrip s else S.String.◌∷◌ c s

rstrip : String → String
rstrip S.String.[] = ""
rstrip (S.String.◌∷◌ c s) = if is_blank (S.String.◌∷◌ c s) then "" else S.String.◌∷◌ c (rstrip s)

-- `text.strip()`
unfoldable pub strip : String → String
unfolding lstrip rstrip is_blank
strip s = rstrip (lstrip s)

module _ (db : Marketplaces) where
  -- a code of three letters, in upper case, or nothing
  code_of : Option String → List String
  code_of none = []
  code_of (some text) = if count (strip text) =? 3 then db.upper (strip text) ∷ [] else []

  codes_of : List (Option String) → List String
  unfolding code_of
  codes_of [] = []
  codes_of (c ∷ cs) = code_of c ++ codes_of cs

  -- what `whitelist_for` computes on a miss of the memo
  unfoldable pub whitelist : String → List String
  unfolding code_of codes_of
  whitelist marketplace_id = elim (db.marketplace marketplace_id) [
    | none ↦ []
    | some m ↦
        let country_code = db.upper (strip (or_else m.country_code "")) in
        (if country_code == "" then [] else code_of (db.country_currency country_code))
        ++ "EUR" ∷ "USD" ∷ (code_of m.currency_code ++ codes_of (or_else m.allowed_currencies []))
  ]

  unfoldable pub whitelist_for : String → Cache → List String × Cache
  whitelist_for marketplace_id cache = elim (get cache marketplace_id) [
    | some cached ↦ (cached, cache)
    | none ↦ let result = whitelist marketplace_id in (result, insert cache marketplace_id result)
  ]

  -- the test of `matches`, for a given whitelist
  unfoldable pub accepts : List String → Option String → Bool
  accepts allowed none = is_empty allowed
  accepts allowed (some currency) =
      is_empty allowed
      || (if currency == "" then false else elem (db.upper (strip currency)) allowed)

  unfoldable pub matches : String → Option String → Cache → Bool × Cache
  matches marketplace_id currency cache =
      let (allowed, cache') = whitelist_for marketplace_id cache in
      (accepts allowed currency, cache')
