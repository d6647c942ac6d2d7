-- ===== src/Examples/Runs.antt =====
-- Calls of the functions that complete a run.
use imperecta.Base.{◌≡◌, refl, none, some, List, [], ◌∷◌, Dict}
use imperecta.Outcomes.{
  classify_scrape_log_status, successful, failed, LogRow, in_bucket, aggregate_marketplace_log_rows,
  sum_buckets_across_marketplaces,
}
use imperecta.Outcomes.Conservation.{counted, counted_known, sum_buckets-conserves}
use imperecta.Completion.{Seed}
use imperecta.PipelineJob.{JobFields, complete_pipeline_job, sum_of}
use imperecta.PipelineJob.Agreement.{complete_pipeline_job-prices}

abbrev rows : List LogRow
rows =
    record { marketplace_id = "m1"; status = "success"; count = 3 }
    ∷ record { marketplace_id = "m2"; status = "timeout"; count = 2 }
    ∷ record { marketplace_id = "m1"; status = "unheard_of"; count = 5 }
    ∷ record { marketplace_id = "m2"; status = "success"; count = 4 }
    ∷ []

abbrev seed : Seed
seed = record {
  marketplace_id = "m1";
  domain = some "shop.example";
  listings_created = 2;
  prices_saved = 0;
  errors_count = 1;
  duration_ms = 10;
  status = "completed";
}

abbrev scraped : Seed
scraped = record {
  marketplace_id = "m1";
  domain = some "shop.example";
  listings_created = 0;
  prices_saved = 0;
  errors_count = 0;
  duration_ms = 20;
  status = "partial";
}

abbrev seeds : Dict Seed
seeds = ("m1", seed) ∷ []

abbrev job : JobFields
job = complete_pipeline_job rows [] 1 2 3 seeds none

sum_buckets-conserves_example :
    in_bucket failed (sum_buckets_across_marketplaces (aggregate_marketplace_log_rows rows))
    ≡ counted failed rows
sum_buckets-conserves_example = sum_buckets-conserves failed rows

-- nine rows have a known status
counted_known_test : counted_known rows ≡ 9
unfolding counted_known classify_scrape_log_status
counted_known_test = refl

complete_pipeline_job-prices_example :
    (job.config.summary.prices_saved ≡ counted successful rows)
    × (job.config.summary.prices_saved
        ≡ sum_of (λ item. item.seed.prices_saved) job.config.per_marketplace)
complete_pipeline_job-prices_example = complete_pipeline_job-prices rows [] 1 2 3 seeds none refl
