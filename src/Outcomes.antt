-- ===== src/Outcomes.antt =====
-- backend/app/modules/scraper/pipeline/outcome_buckets.py: the terminal statuses of the scrape log,
-- sorted into four buckets per marketplace and summed over a run. A marketplace id is its text. The
-- theorems are in `Conservation`.
pub mod Conservation
use imperecta.Base.{
  ℕ, ◌+◌, String, Bool, Option, none, some, List, [], ◌∷◌, elem, Dict, get, insert, or_else,
  if◌then◌else◌,
}

-- the buckets, by the values of the `BUCKET_` constants
pub data Bucket : Type 0 where
  successful : Bucket
  unchanged : Bucket
  filtered : Bucket
  failed : Bucket

-- the dictionary of counts, which has exactly these keys
pub record OutcomeBuckets : Type 0 where
  pub successful_n : ℕ
  pub unchanged_n : ℕ
  pub filtered_n : ℕ
  pub failed_n : ℕ
  pub total : ℕ

-- a row of the query on the scrape log: marketplace, status and count
pub record LogRow : Type 0 where
  pub marketplace_id : String
  pub status : String
  pub count : ℕ

abbrev pub terminal_successful : List String
terminal_successful = "success" ∷ []

abbrev pub terminal_unchanged : List String
terminal_unchanged = "no_change" ∷ []

abbrev pub terminal_filtered : List String
terminal_filtered = "not_a_product" ∷ []

abbrev pub terminal_failed : List String
terminal_failed =
    "error" ∷ "timeout" ∷ "blocked" ∷ "captcha" ∷ "not_found" ∷ "price_not_found" ∷ "parse_error"
    ∷ "currency_rejected" ∷ "missing_critical_data" ∷ "technical_error" ∷ "fetch_failed"
    ∷ "parse_failed" ∷ "quota_exceeded" ∷ "persist_failed" ∷ []

unfoldable pub empty_outcome_buckets : OutcomeBuckets
empty_outcome_buckets = record {
  successful_n = 0;
  unchanged_n = 0;
  filtered_n = 0;
  failed_n = 0;
  total = 0;
}

unfoldable pub classify_scrape_log_status : String → Option Bucket
classify_scrape_log_status status =
    if elem status terminal_successful
    then some successful
    else if elem status terminal_unchanged
    then some unchanged
    else if elem status terminal_filtered
    then some filtered
    else if elem status terminal_failed
    then some failed
    else none

-- `buckets[bucket]`
unfoldable pub in_bucket : Bucket → OutcomeBuckets → ℕ
in_bucket successful b = b.successful_n
in_bucket unchanged b = b.unchanged_n
in_bucket filtered b = b.filtered_n
in_bucket failed b = b.failed_n

-- `buckets[bucket] += count`
unfoldable pub add_to : Bucket → ℕ → OutcomeBuckets → OutcomeBuckets
add_to successful n b = record {
  successful_n = b.successful_n + n;
  unchanged_n = b.unchanged_n;
  filtered_n = b.filtered_n;
  failed_n = b.failed_n;
  total = b.total;
}
add_to unchanged n b = record {
  successful_n = b.successful_n;
  unchanged_n = b.unchanged_n + n;
  filtered_n = b.filtered_n;
  failed_n = b.failed_n;
  total = b.total;
}
add_to filtered n b = record {
  successful_n = b.successful_n;
  unchanged_n = b.unchanged_n;
  filtered_n = b.filtered_n + n;
  failed_n = b.failed_n;
  total = b.total;
}
add_to failed n b = record {
  successful_n = b.successful_n;
  unchanged_n = b.unchanged_n;
  filtered_n = b.filtered_n;
  failed_n = b.failed_n + n;
  total = b.total;
}

-- an unknown status is only logged
unfoldable pub accumulate_status_count : OutcomeBuckets → String → ℕ → OutcomeBuckets
accumulate_status_count buckets status count = elim (classify_scrape_log_status status) [
  | none ↦ buckets
  | some bucket ↦ add_to bucket count buckets
]

unfoldable pub finalize_outcome_buckets : OutcomeBuckets → OutcomeBuckets
finalize_outcome_buckets b = record {
  successful_n = b.successful_n;
  unchanged_n = b.unchanged_n;
  filtered_n = b.filtered_n;
  failed_n = b.failed_n;
  total = b.successful_n + b.unchanged_n + b.filtered_n + b.failed_n;
}

-- the loop over the rows
unfoldable pub group_rows : List LogRow → Dict OutcomeBuckets → Dict OutcomeBuckets
group_rows [] by_marketplace = by_marketplace
group_rows (row ∷ rows) by_marketplace =
    let buckets = or_else (get by_marketplace row.marketplace_id) empty_outcome_buckets in
    group_rows rows (
      insert by_marketplace row.marketplace_id
        (accumulate_status_count buckets row.status row.count))

unfoldable pub finalize_all : Dict OutcomeBuckets → Dict OutcomeBuckets
finalize_all [] = []
finalize_all ((m, b) ∷ d) = (m, finalize_outcome_buckets b) ∷ finalize_all d

unfoldable pub aggregate_marketplace_log_rows : List LogRow → Dict OutcomeBuckets
aggregate_marketplace_log_rows rows = finalize_all (group_rows rows [])

-- `totals[key] += buckets[key]` for the four buckets
unfoldable pub plus : OutcomeBuckets → OutcomeBuckets → OutcomeBuckets
plus totals b = record {
  successful_n = totals.successful_n + b.successful_n;
  unchanged_n = totals.unchanged_n + b.unchanged_n;
  filtered_n = totals.filtered_n + b.filtered_n;
  failed_n = totals.failed_n + b.failed_n;
  total = totals.total;
}

-- the loop of the sum
unfoldable pub add_buckets : Dict OutcomeBuckets → OutcomeBuckets → OutcomeBuckets
add_buckets [] totals = totals
add_buckets ((m, b) ∷ d) totals = add_buckets d (plus totals b)

unfoldable pub sum_buckets_across_marketplaces : Dict OutcomeBuckets → OutcomeBuckets
sum_buckets_across_marketplaces d = finalize_outcome_buckets (add_buckets d empty_outcome_buckets)
