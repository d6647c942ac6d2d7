-- ===== src/PipelineJob/Agreement.antt =====
-- The totals that a run stores agree with the list of its marketplaces and with the scrape log.
use imperecta.Base.{
  ℕ, ◌+◌, String, ◌≡◌, refl, sym, ◌∙◌, true, Option, List, [], ◌∷◌, ◌++◌, arith, elem, Dict, keys,
  Bool-cases, inl, inr,
}
use imperecta.Outcomes.{
  OutcomeBuckets, successful, failed, LogRow, in_bucket, aggregate_marketplace_log_rows,
}
use imperecta.Outcomes.Conservation.{counted, summed-aggregate, sum_buckets-conserves}
use imperecta.Completion.{Seed}
use imperecta.PipelineJob.{
  Entry, JobFields, merge_entries, merge_entry, missing_entries, missing_entry, sum_of,
  merged_entries, complete_pipeline_job,
}
use imperecta.PipelineJob.Totals.{distinct, seeded, unseeded, seeded-unseeded, distinct-aggregate}

sum_of-append :
    (f : Entry → ℕ) (xs ys : List Entry) → sum_of f (xs ++ ys) ≡ sum_of f xs + sum_of f ys
unfolding sum_of
sum_of-append f [] ys = omega arith
sum_of-append f (x ∷ xs) ys = let rest = sum_of-append f xs ys in omega arith

-- the discovery errors that the seeds carry
pub seed_errors : Dict Seed → ℕ
seed_errors [] = 0
seed_errors ((m, s) ∷ seeds) = s.errors_count + seed_errors seeds

prices_of_seeds :
    (stats : Dict OutcomeBuckets) (seeds : Dict Seed)
    → sum_of (λ item. item.seed.prices_saved) (merge_entries stats seeds)
      ≡ seeded successful stats seeds
unfolding sum_of merge_entries merge_entry seeded in_bucket
prices_of_seeds stats [] = refl
prices_of_seeds stats ((m, s) ∷ seeds) = let rest = prices_of_seeds stats seeds in omega arith

errors_of_seeds :
    (stats : Dict OutcomeBuckets) (seeds : Dict Seed)
    → sum_of (λ item. item.seed.errors_count) (merge_entries stats seeds)
      ≡ seed_errors seeds + seeded failed stats seeds
unfolding sum_of merge_entries merge_entry seeded in_bucket seed_errors
errors_of_seeds stats [] = omega arith
errors_of_seeds stats ((m, s) ∷ seeds) = let rest = errors_of_seeds stats seeds in omega arith

prices_of_missing :
    (domains : Dict String) (ks : List String) (stats : Dict OutcomeBuckets)
    → sum_of (λ item. item.seed.prices_saved) (missing_entries domains ks stats)
      ≡ unseeded successful stats ks
unfolding sum_of missing_entries missing_entry unseeded in_bucket
prices_of_missing domains ks [] = refl
prices_of_missing domains ks ((m, b) ∷ stats) =
    let rest = prices_of_missing domains ks stats in
    elim (Bool-cases (elem m ks)) [ inl e ↦ rw e rest | inr e ↦ rw e (omega arith) ]

errors_of_missing :
    (domains : Dict String) (ks : List String) (stats : Dict OutcomeBuckets)
    → sum_of (λ item. item.seed.errors_count) (missing_entries domains ks stats)
      ≡ unseeded failed stats ks
unfolding sum_of missing_entries missing_entry unseeded in_bucket
errors_of_missing domains ks [] = refl
errors_of_missing domains ks ((m, b) ∷ stats) =
    let rest = errors_of_missing domains ks stats in
    elim (Bool-cases (elem m ks)) [ inl e ↦ rw e rest | inr e ↦ rw e (omega arith) ]

module _ (log_rows : List LogRow) (domain_map : Dict String) (discovery_ms scrape_ms persist_ms : ℕ)
    (seeds : Dict Seed) (hard_error : Option String) (unique : distinct (keys seeds) ≡ true) where
  abbrev stats : Dict OutcomeBuckets
  stats = aggregate_marketplace_log_rows log_rows

  abbrev entries : List Entry
  entries = merged_entries log_rows domain_map discovery_ms scrape_ms persist_ms seeds hard_error

  prices_of_entries : sum_of (λ item. item.seed.prices_saved) entries ≡ counted successful log_rows
  unfolding merged_entries
  prices_of_entries =
      let split = seeded-unseeded successful stats seeds (distinct-aggregate log_rows) unique in
      let both =
        sum_of-append (λ item. item.seed.prices_saved) (merge_entries stats seeds)
          (missing_entries domain_map (keys seeds) stats) in
      let known = prices_of_seeds stats seeds in
      let others = prices_of_missing domain_map (keys seeds) stats in
      let log = summed-aggregate successful log_rows in omega arith

  errors_of_entries :
      sum_of (λ item. item.seed.errors_count) entries ≡ seed_errors seeds + counted failed log_rows
  unfolding merged_entries
  errors_of_entries =
      let split = seeded-unseeded failed stats seeds (distinct-aggregate log_rows) unique in
      let both =
        sum_of-append (λ item. item.seed.errors_count) (merge_entries stats seeds)
          (missing_entries domain_map (keys seeds) stats) in
      let known = errors_of_seeds stats seeds in
      let others = errors_of_missing domain_map (keys seeds) stats in
      let log = summed-aggregate failed log_rows in omega arith

  abbrev job : JobFields
  job = complete_pipeline_job log_rows domain_map discovery_ms scrape_ms persist_ms seeds hard_error

  -- With one seed per marketplace, the prices that the run reports are the sum of the prices of the
  -- marketplaces in its list, and both are the count of the successful rows of the scrape log.
  pub complete_pipeline_job-prices :
      (job.config.summary.prices_saved ≡ counted successful log_rows)
      × (job.config.summary.prices_saved
          ≡ sum_of (λ item. item.seed.prices_saved) job.config.per_marketplace)
  unfolding complete_pipeline_job in_bucket
  complete_pipeline_job-prices =
      let run = sum_buckets-conserves successful log_rows in (run, run ∙ sym prices_of_entries)

  -- With one seed per marketplace, the errors that the run reports are the discovery errors of the
  -- seeds and the failed rows of the scrape log, and the failures of the job are the latter alone.
  pub complete_pipeline_job-errors :
      (job.config.summary.errors_count ≡ seed_errors seeds + counted failed log_rows)
      × (job.failed ≡ counted failed log_rows)
  unfolding complete_pipeline_job in_bucket
  complete_pipeline_job-errors = (errors_of_entries, sum_buckets-conserves failed log_rows)
