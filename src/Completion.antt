-- ===== src/Completion.antt =====
-- `decide_parent_status` of backend/app/modules/scraper/pipeline/job_completion.py, and
-- `merge_phase_seeds` of child_aggregation.py beside it: the verdict on a run and the seeds of its
-- marketplaces. The theorems are in `Status` and `Seeds`.
pub mod Status
pub mod Seeds
use Prim.Native.String as S
use imperecta.Base.{
  ℕ, ◌+◌, zero, suc, ◌-◌, ltb, ◌=?◌, String, Bool, true, false, not, ◌==◌, Option, none, some, List,
  [], ◌∷◌, ◌++◌, elem, is_empty, length, map, keep, Dict, get, keys, or_else, if◌then◌else◌,
}
use imperecta.Outcomes.{
  OutcomeBuckets, LogRow, empty_outcome_buckets, aggregate_marketplace_log_rows,
  sum_buckets_across_marketplaces,
}

-- the dictionary of one marketplace, as the aggregation of the children builds it
pub record Seed : Type 0 where
  pub marketplace_id : String
  pub domain : Option String
  pub listings_created : ℕ
  pub prices_saved : ℕ
  pub errors_count : ℕ
  pub duration_ms : ℕ
  pub status : String

-- `if hard_error`
unfoldable pub is_given : Option String → Bool
is_given none = false
is_given (some text) = not (text == "")

unfoldable pub count_completed : List String → ℕ
count_completed [] = 0
count_completed (status ∷ statuses) =
    let rest = count_completed statuses in if status == "completed" then suc rest else rest

unfoldable pub decide_parent_status : List String → Option String → String
decide_parent_status seed_statuses hard_error =
    let completed_n = count_completed seed_statuses in
    let noncompleted_n = length seed_statuses - completed_n in
    if is_given hard_error
    then "failed"
    else if is_empty seed_statuses
    then "failed"
    else if noncompleted_n =? 0
    then "completed"
    else if completed_n =? 0
    then "failed"
    else "partial"

-- one round of `merge_phase_seeds`; an entry is a dictionary with keys, so it counts as true
unfoldable pub merge_seed : Option Seed → Option Seed → Option Seed
merge_seed none s = s
merge_seed (some d) none = some d
merge_seed (some d) (some s) = some (record {
  marketplace_id = d.marketplace_id;
  domain = d.domain;
  listings_created = d.listings_created;
  prices_saved = d.prices_saved;
  errors_count = d.errors_count;
  duration_ms = d.duration_ms;
  status = s.status;
})

unfoldable pub merge_ids : Dict Seed → Dict Seed → List String → Dict Seed
merge_ids discovery_seed scrape_seed [] = []
merge_ids discovery_seed scrape_seed (m ∷ ids) =
    elim (merge_seed (get discovery_seed m) (get scrape_seed m)) [
      | none ↦ merge_ids discovery_seed scrape_seed ids
      | some base ↦ (m, base) ∷ merge_ids discovery_seed scrape_seed ids
    ]

-- the union of the ids has no fixed order in the source
unfoldable pub merge_phase_seeds : Dict Seed → Dict Seed → Dict Seed
merge_phase_seeds discovery_seed scrape_seed =
    merge_ids discovery_seed scrape_seed
      (keys discovery_seed ++ keep (λ m. not (elem m (keys discovery_seed))) (keys scrape_seed))
