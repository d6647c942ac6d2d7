-- ===== src/Contracts.antt =====
-- backend/app/modules/data_firewall/contracts.py: column contracts and the locator columns of each
-- table. The contracts themselves are read off the ORM models by SQLAlchemy, so the table of
-- contracts is a parameter of every door (`Gate` of Firewall).
use Prim.Native.String.{◌++◌ as ◌++ₛ◌}
use imperecta.Base.{
  ℕ, String, ◌≡◌, refl, Bool, true, false, Bool-cases, Option, none, some, List, [], ◌∷◌, arith,
  if◌then◌else◌, Dict, get, has, insert, Result, ok, value_error, all, Option-cases, inl, inr,
}
use imperecta.Payload.{Value, read}

pub record ColumnContract : Type 0 where
  pub type : String
  pub nullable : Bool
  pub max_len : Option ℕ
  pub precision : Option ℕ
  pub scale : Option ℕ
  pub check_values : Option (List String)

-- the columns that locate a row, for each table
unfoldable pub table_locators : Dict (List String)
table_locators =
    ("dim_date", "date_id" ∷ [])
    ∷ ("fact_price", "listing_id" ∷ "date_id" ∷ [])
    ∷ ("fact_listing", "url_hash" ∷ [])
    ∷ ("dim_product", "id" ∷ [])
    ∷ ("dim_marketplace", "id" ∷ [])
    ∷ ("dim_brand", "id" ∷ [])
    ∷ ("dim_category", "id" ∷ [])
    ∷ ("alerts", "id" ∷ [])
    ∷ ("alert_events", [])
    ∷ ("scrape_jobs", "id" ∷ [])
    ∷ ("fact_currency_rate", "date_id" ∷ "currency_code" ∷ "source" ∷ [])
    ∷ ("fact_crypto_price", "date_id" ∷ "symbol" ∷ "source" ∷ [])
    ∷ ("fact_commodity_price", "date_id" ∷ "symbol" ∷ "source" ∷ [])
    ∷ ("scrape_logs", [])
    ∷ ("api_logs", [])
    ∷ ("service_alerts", "id" ∷ [])
    ∷ ("reject_data", [])
    ∷ ("users", "id" ∷ [])
    ∷ ("ai_chat_sessions", "id" ∷ [])
    ∷ ("ai_chat_messages", "id" ∷ [])
    ∷ []

-- the loop over the locator columns
collect : String → Dict Value → List String → Dict Value → Result (Dict Value)
collect table fields [] locator = ok locator
collect table fields (key ∷ locator_keys) locator =
    let rest = collect table fields locator_keys (insert locator key (read fields key)) in
    if has fields key
    then rest
    else value_error ("locator column missing from fields: " ++ₛ key ++ₛ " for table " ++ₛ table)

unfoldable pub extract_locator : String → Dict Value → Result (Dict Value)
unfolding collect
extract_locator table fields = elim (get table_locators table) [
  | none ↦ value_error ("no locator contract for table: " ++ₛ table)
  | some locator_keys ↦ collect table fields locator_keys []
]

collect_total :
    (table : String) (fields : Dict Value) (ks : List String) (locator : Dict Value)
    → all (has fields) ks ≡ true
    → (found : Dict Value) × (collect table fields ks locator ≡ ok found)
unfolding collect
collect_total table fields [] locator h = (locator, refl)
collect_total table fields (k ∷ ks) locator h =
    let (found, e) =
      collect_total table fields ks (insert locator k (read fields k)) (ground arith) in
    (found, ground arith)

-- With every locator column present, `extract_locator` returns and raises nothing.
pub extract_locator_total :
    (table : String) (fields : Dict Value) (locator_keys : List String)
    → get table_locators table ≡ some locator_keys
    → all (has fields) locator_keys ≡ true
    → (locator : Dict Value) × (extract_locator table fields ≡ ok locator)
unfolding extract_locator
extract_locator_total table fields locator_keys h present =
    rw (h, extract_locator) (collect_total table fields locator_keys [] present)

collect_complete :
    (table : String) (fields : Dict Value) (ks : List String) (locator found : Dict Value)
    → collect table fields ks locator ≡ ok found
    → all (has fields) ks ≡ true
unfolding collect
collect_complete table fields [] locator found h = refl
collect_complete table fields (k ∷ ks) locator found h =
    ground (arith, collect_complete table fields ks (insert locator k (read fields k)) found)

-- A locator is returned only for a table that has one and fields that hold all its columns.
pub extract_locator_complete :
    (table : String) (fields found : Dict Value)
    → extract_locator table fields ≡ ok found
    → (locator_keys : List String) × (get table_locators table ≡ some locator_keys)
      × (all (has fields) locator_keys ≡ true)
unfolding extract_locator
extract_locator_complete table fields found h = elim (Option-cases (get table_locators table)) [
  | inl e ↦ absurd (cc (rw (e, extract_locator) at h))
  | inr (ks, e) ↦ (ks, e, collect_complete table fields ks [] found (rw (e, extract_locator) at h))
]

collect_fails :
    (table : String) (fields : Dict Value) (ks : List String) (locator : Dict Value)
    → all (has fields) ks ≡ false
    → (message : String) × (collect table fields ks locator ≡ value_error message)
unfolding collect
collect_fails table fields [] locator h = absurd (cc)
collect_fails table fields (k ∷ ks) locator h = elim (Bool-cases (has fields k)) [
  | inl e ↦
      let (message, e') =
        collect_fails table fields ks (insert locator k (read fields k)) (ground arith) in
      (message, ground arith)
  | inr e ↦ (
    "locator column missing from fields: " ++ₛ k ++ₛ " for table " ++ₛ table,
    rw (e, collect) refl,
  )
]

-- With a locator column missing, `extract_locator` raises `ValueError`.
pub extract_locator_fails :
    (table : String) (fields : Dict Value) (locator_keys : List String)
    → get table_locators table ≡ some locator_keys
    → all (has fields) locator_keys ≡ false
    → (message : String) × (extract_locator table fields ≡ value_error message)
unfolding extract_locator
extract_locator_fails table fields locator_keys h absent =
    rw (h, extract_locator) (collect_fails table fields locator_keys [] absent)
