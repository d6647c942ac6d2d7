-- ===== src/PipelineJob.antt =====
-- `complete_pipeline_job` of backend/app/modules/scraper/pipeline/job_completion.py: how the buckets
-- of the scrape log and the seeds of the marketplaces become the result of a run. The results of the
-- queries (log rows and domains) are arguments, and what is stored is returned; the clock, the other
-- keys of the job's metadata and the log line are left out. The theorems are in `Totals` and
-- `Agreement`.
pub mod Totals
pub mod Agreement
use Prim.Native.String as S
use imperecta.Base.{
  ℕ, ◌+◌, zero, suc, ltb, String, Bool, true, false, not, Option, none, some, List, [], ◌∷◌, ◌++◌,
  elem, map, Dict, get, keys, or_else, if◌then◌else◌,
}
use imperecta.Outcomes.{
  OutcomeBuckets, LogRow, empty_outcome_buckets, aggregate_marketplace_log_rows,
  sum_buckets_across_marketplaces,
}
use imperecta.Completion.{Seed, is_given, decide_parent_status}

-- the dictionary of one marketplace: a seed with the buckets of the scrape log (without their total)
pub record Entry : Type 0 where
  pub seed : Seed
  pub successful : ℕ
  pub unchanged : ℕ
  pub filtered : ℕ
  pub failed : ℕ

pub record Timings : Type 0 where
  pub discovery_ms : ℕ
  pub scrape_ms : ℕ
  pub persist_ms : ℕ
  pub total_ms : ℕ

pub record Summary : Type 0 where
  pub listings_created : ℕ
  pub prices_saved : ℕ
  pub errors_count : ℕ
  pub buckets : OutcomeBuckets

pub record Metadata : Type 0 where
  pub current_stage : String
  pub timings : Timings
  pub summary : Summary
  pub per_marketplace : List Entry
  pub error : Option String

-- the fields of the job's row that are written
pub record JobFields : Type 0 where
  pub status : String
  pub duration_ms : ℕ
  pub total_listings : ℕ
  pub successful : ℕ
  pub failed : ℕ
  pub config : Metadata

-- an entry of the loop over the seeds
unfoldable pub merge_entry : Seed → OutcomeBuckets → Entry
merge_entry seed buckets = record {
  seed = record {
    marketplace_id = seed.marketplace_id;
    domain = seed.domain;
    listings_created = seed.listings_created;
    prices_saved = buckets.successful_n;
    errors_count = seed.errors_count + buckets.failed_n;
    duration_ms = seed.duration_ms;
    status = seed.status;
  };
  successful = buckets.successful_n;
  unchanged = buckets.unchanged_n;
  filtered = buckets.filtered_n;
  failed = buckets.failed_n;
}

-- the loop over the seeds
unfoldable pub merge_entries : Dict OutcomeBuckets → Dict Seed → List Entry
merge_entries stats [] = []
merge_entries stats ((m, seed) ∷ seeds) =
    merge_entry seed (or_else (get stats m) empty_outcome_buckets) ∷ merge_entries stats seeds

-- an entry for a marketplace of the log that has no seed
unfoldable pub missing_entry : Option String → String → OutcomeBuckets → Entry
missing_entry domain m buckets = record {
  seed = record {
    marketplace_id = m;
    domain = domain;
    listings_created = 0;
    prices_saved = buckets.successful_n;
    errors_count = buckets.failed_n;
    duration_ms = 0;
    status = if ltb 0 buckets.failed_n then "failed" else "completed";
  };
  successful = buckets.successful_n;
  unchanged = buckets.unchanged_n;
  filtered = buckets.filtered_n;
  failed = buckets.failed_n;
}

-- the loop over the marketplaces with no seed, which the source takes in no fixed order
unfoldable pub missing_entries : Dict String → List String → Dict OutcomeBuckets → List Entry
missing_entries domain_map seeded [] = []
missing_entries domain_map seeded ((m, buckets) ∷ stats) =
    let rest = missing_entries domain_map seeded stats in
    if elem m seeded then rest else missing_entry (get domain_map m) m buckets ∷ rest

-- `sum(item[...] for item in merged)`
unfoldable pub sum_of : (Entry → ℕ) → List Entry → ℕ
sum_of f [] = 0
sum_of f (entry ∷ merged) = f entry + sum_of f merged

-- `text[:n]`
unfoldable pub take_text : ℕ → String → String
take_text zero s = S.String.[]
take_text (suc n) S.String.[] = S.String.[]
take_text (suc n) (S.String.◌∷◌ c s) = S.String.◌∷◌ c (take_text n s)

unfoldable pub error_note : Option String → Option String
error_note none = none
error_note (some text) = if is_given (some text) then some (take_text 2000 text) else none

module _ (log_rows : List LogRow) (domain_map : Dict String) (discovery_ms scrape_ms persist_ms : ℕ)
    (per_marketplace_seed : Dict Seed) (hard_error : Option String) where
  unfoldable pub merged_entries : List Entry
  merged_entries =
      let stats = aggregate_marketplace_log_rows log_rows in
      merge_entries stats per_marketplace_seed
      ++ missing_entries domain_map (keys per_marketplace_seed) stats

  unfoldable pub complete_pipeline_job : JobFields
  complete_pipeline_job =
      let run_buckets = sum_buckets_across_marketplaces (aggregate_marketplace_log_rows log_rows) in
      let listings_created = sum_of (λ item. item.seed.listings_created) merged_entries in
      let total_ms = discovery_ms + scrape_ms + persist_ms in
      let parent_status =
        decide_parent_status (map (λ item. item.seed.status) merged_entries) hard_error in
      record {
        status = parent_status;
        duration_ms = total_ms;
        total_listings = listings_created;
        successful = run_buckets.successful_n;
        failed = run_buckets.failed_n;
        config = record {
          current_stage = parent_status;
          timings = record {
            discovery_ms = discovery_ms;
            scrape_ms = scrape_ms;
            persist_ms = persist_ms;
            total_ms = total_ms;
          };
          summary = record {
            listings_created = listings_created;
            prices_saved = run_buckets.successful_n;
            errors_count = sum_of (λ item. item.seed.errors_count) merged_entries;
            buckets = run_buckets;
          };
          per_marketplace = merged_entries;
          error = error_note hard_error;
        };
      }
