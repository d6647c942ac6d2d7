-- ===== src/Outcomes/Conservation.antt =====
-- The buckets lose no row and count none twice.
use imperecta.Base.{
  ℕ, ◌+◌, String, ◌≡◌, refl, ◌∙◌, Bool, true, false, Option, none, some, List, [], ◌∷◌, arith, Dict,
  get, insert, or_else, if◌then◌else◌, Bool-cases, inl, inr, ◌==◌, Option-cases,
}
use imperecta.Outcomes.{
  Bucket, successful, unchanged, filtered, failed, OutcomeBuckets, LogRow, empty_outcome_buckets,
  classify_scrape_log_status, in_bucket, add_to, accumulate_status_count, finalize_outcome_buckets,
  group_rows, finalize_all, aggregate_marketplace_log_rows, plus, add_buckets,
  sum_buckets_across_marketplaces,
}

abbrev same : Bucket → Bucket → Bool
same successful successful = true
same unchanged unchanged = true
same filtered filtered = true
same failed failed = true
same _ _ = false

-- what a status contributes to a bucket
contribution : Bucket → Option Bucket → ℕ → ℕ
contribution x none n = 0
contribution x (some y) n = if same x y then n else 0

-- the rows that belong in a bucket, counted in the log itself
pub counted : Bucket → List LogRow → ℕ
unfolding contribution
counted x [] = 0
counted x (row ∷ rows) =
    contribution x (classify_scrape_log_status row.status) row.count + counted x rows

-- a bucket, summed over the marketplaces
unfoldable pub summed : Bucket → Dict OutcomeBuckets → ℕ
summed x [] = 0
summed x ((m, b) ∷ d) = in_bucket x b + summed x d

in_bucket-add_to :
    (x y : Bucket) (n : ℕ) (b : OutcomeBuckets)
    → in_bucket x (add_to y n b) ≡ in_bucket x b + contribution x (some y) n
unfolding in_bucket add_to contribution
in_bucket-add_to successful successful n b = refl
in_bucket-add_to successful unchanged n b = omega arith
in_bucket-add_to successful filtered n b = omega arith
in_bucket-add_to successful failed n b = omega arith
in_bucket-add_to unchanged successful n b = omega arith
in_bucket-add_to unchanged unchanged n b = refl
in_bucket-add_to unchanged filtered n b = omega arith
in_bucket-add_to unchanged failed n b = omega arith
in_bucket-add_to filtered successful n b = omega arith
in_bucket-add_to filtered unchanged n b = omega arith
in_bucket-add_to filtered filtered n b = refl
in_bucket-add_to filtered failed n b = omega arith
in_bucket-add_to failed successful n b = omega arith
in_bucket-add_to failed unchanged n b = omega arith
in_bucket-add_to failed filtered n b = omega arith
in_bucket-add_to failed failed n b = refl

in_bucket-accumulate :
    (x : Bucket) (b : OutcomeBuckets) (status : String) (n : ℕ)
    → in_bucket x (accumulate_status_count b status n)
      ≡ in_bucket x b + contribution x (classify_scrape_log_status status) n
unfolding accumulate_status_count
in_bucket-accumulate x b status n = elim (Option-cases (classify_scrape_log_status status)) [
  | inl e ↦ unfold contribution in rw (e, accumulate_status_count) (omega arith)
  | inr (y, e) ↦ rw (e, accumulate_status_count) (in_bucket-add_to x y n b)
]

pub in_bucket-empty : (x : Bucket) → in_bucket x empty_outcome_buckets ≡ 0
unfolding in_bucket empty_outcome_buckets
in_bucket-empty successful = refl
in_bucket-empty unchanged = refl
in_bucket-empty filtered = refl
in_bucket-empty failed = refl

summed-insert :
    (x : Bucket) (d : Dict OutcomeBuckets) (m : String) (b : OutcomeBuckets)
    → summed x (insert d m b) + in_bucket x (or_else (get d m) empty_outcome_buckets)
      ≡ summed x d + in_bucket x b
unfolding summed
summed-insert x [] m b = let e = in_bucket-empty x in omega arith
summed-insert x ((j, c) ∷ d) m b =
    let rest = summed-insert x d m b in
    elim (Bool-cases (j == m)) [ inl e ↦ rw e (omega arith) | inr e ↦ rw e (omega arith) ]

summed-group :
    (x : Bucket) (rows : List LogRow) (d : Dict OutcomeBuckets)
    → summed x (group_rows rows d) ≡ summed x d + counted x rows
unfolding group_rows counted
summed-group x [] d = omega arith
summed-group x (row ∷ rows) d =
    let b = or_else (get d row.marketplace_id) empty_outcome_buckets in
    let rest =
      summed-group x rows
        (insert d row.marketplace_id (accumulate_status_count b row.status row.count)) in
    let step =
      summed-insert x d row.marketplace_id (accumulate_status_count b row.status row.count) in
    let grown = in_bucket-accumulate x b row.status row.count in omega arith

in_bucket-finalize :
    (x : Bucket) (b : OutcomeBuckets) → in_bucket x (finalize_outcome_buckets b) ≡ in_bucket x b
unfolding in_bucket finalize_outcome_buckets
in_bucket-finalize successful b = refl
in_bucket-finalize unchanged b = refl
in_bucket-finalize filtered b = refl
in_bucket-finalize failed b = refl

summed-finalize : (x : Bucket) (d : Dict OutcomeBuckets) → summed x (finalize_all d) ≡ summed x d
unfolding summed finalize_all
summed-finalize x [] = refl
summed-finalize x ((m, b) ∷ d) =
    let rest = summed-finalize x d in let first = in_bucket-finalize x b in omega arith

pub summed-aggregate :
    (x : Bucket) (rows : List LogRow)
    → summed x (aggregate_marketplace_log_rows rows) ≡ counted x rows
unfolding aggregate_marketplace_log_rows
summed-aggregate x rows =
    let finalized = summed-finalize x (group_rows rows []) in
    let grouped = summed-group x rows [] in
    let none_yet : summed x [] ≡ 0 = unfold summed in refl in omega arith

in_bucket-plus :
    (x : Bucket) (a b : OutcomeBuckets) → in_bucket x (plus a b) ≡ in_bucket x a + in_bucket x b
unfolding in_bucket plus
in_bucket-plus successful a b = refl
in_bucket-plus unchanged a b = refl
in_bucket-plus filtered a b = refl
in_bucket-plus failed a b = refl

in_bucket-add_buckets :
    (x : Bucket) (d : Dict OutcomeBuckets) (totals : OutcomeBuckets)
    → in_bucket x (add_buckets d totals) ≡ in_bucket x totals + summed x d
unfolding add_buckets summed
in_bucket-add_buckets x [] totals = omega arith
in_bucket-add_buckets x ((m, b) ∷ d) totals =
    let rest = in_bucket-add_buckets x d (plus totals b) in
    let step = in_bucket-plus x totals b in omega arith

-- A bucket of the run is the sum of that bucket over the marketplaces.
pub in_bucket-sum :
    (x : Bucket) (d : Dict OutcomeBuckets)
    → in_bucket x (sum_buckets_across_marketplaces d) ≡ summed x d
unfolding sum_buckets_across_marketplaces
in_bucket-sum x d =
    let final = in_bucket-finalize x (add_buckets d empty_outcome_buckets) in
    let added = in_bucket-add_buckets x d empty_outcome_buckets in
    let start = in_bucket-empty x in omega arith

-- For every bucket, what the run reports is exactly the count of the log rows whose status belongs
-- in that bucket, however the rows are spread over marketplaces: no row is lost or counted twice.
pub sum_buckets-conserves :
    (x : Bucket) (rows : List LogRow)
    → in_bucket x (sum_buckets_across_marketplaces (aggregate_marketplace_log_rows rows))
      ≡ counted x rows
sum_buckets-conserves x rows =
    in_bucket-sum x (aggregate_marketplace_log_rows rows) ∙ summed-aggregate x rows

known : Option Bucket → ℕ → ℕ
known none n = 0
known (some x) n = n

-- the rows whose status is known to some bucket
unfoldable pub counted_known : List LogRow → ℕ
unfolding known
counted_known [] = 0
counted_known (row ∷ rows) =
    known (classify_scrape_log_status row.status) row.count + counted_known rows

contribution-split :
    (o : Option Bucket) (n : ℕ)
    → contribution successful o n
        + contribution unchanged o n
        + contribution filtered o n
        + contribution failed o n
      ≡ known o n
unfolding contribution known
contribution-split none n = refl
contribution-split (some successful) n = omega arith
contribution-split (some unchanged) n = omega arith
contribution-split (some filtered) n = omega arith
contribution-split (some failed) n = omega arith

counted_known-split :
    (rows : List LogRow)
    → counted successful rows + counted unchanged rows + counted filtered rows + counted failed rows
      ≡ counted_known rows
unfolding counted counted_known
counted_known-split [] = refl
counted_known-split (row ∷ rows) =
    let rest = counted_known-split rows in
    let first = contribution-split (classify_scrape_log_status row.status) row.count in omega arith

total-sum :
    (d : Dict OutcomeBuckets)
    → (sum_buckets_across_marketplaces d).total
      ≡ in_bucket successful (sum_buckets_across_marketplaces d)
        + in_bucket unchanged (sum_buckets_across_marketplaces d)
        + in_bucket filtered (sum_buckets_across_marketplaces d)
        + in_bucket failed (sum_buckets_across_marketplaces d)
unfolding sum_buckets_across_marketplaces finalize_outcome_buckets in_bucket
total-sum d = refl

-- The total of the run is the count of all log rows with a known status.
pub sum_buckets-total :
    (rows : List LogRow)
    → (sum_buckets_across_marketplaces (aggregate_marketplace_log_rows rows)).total
      ≡ counted_known rows
sum_buckets-total rows =
    let d = aggregate_marketplace_log_rows rows in
    let total = total-sum d in
    let a = sum_buckets-conserves successful rows in
    let b = sum_buckets-conserves unchanged rows in
    let c = sum_buckets-conserves filtered rows in
    let e = sum_buckets-conserves failed rows in let split = counted_known-split rows in omega arith
