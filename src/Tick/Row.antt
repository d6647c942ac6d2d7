-- ===== src/Tick/Row.antt =====
-- What one call of `run_tick` of backend/app/modules/scraper/pipeline/tick_orchestrator.py reads and
-- leaves: the row of the parent job, the answers of the database, the broker and the clock, and what
-- the call does. A call that may raise answers with an `Option` (`none`: it raised) or a `Bool`
-- (`false`: it raised).
use imperecta.Base.{ℕ, String, Bool, Option, none, some, List, [], Dict}
use imperecta.Outcomes.{LogRow}
use imperecta.Completion.{Seed}
use imperecta.PipelineJob.{JobFields}

-- `config["metadata"]` of the parent job; a missing queue, count or dictionary is empty or 0
pub record TickMetadata : Type 0 where
  pub phase : Option String
  pub mp_queue : List String
  pub mp_total : Option ℕ
  pub tick_count : ℕ
  pub backoff_s : Option ℕ
  pub resume_attempts : ℕ
  pub discovery_marketplace_total : ℕ
  pub discovery_marketplace_done : ℕ
  pub scrape_marketplace_codes : List String
  pub scrape_queue : Option (List String)
  pub scrape_total : ℕ
  pub scrape_last_dispatched_at : Dict String
  pub scrape_phase_started_at : Option String
  pub scrape_marketplace_total : ℕ
  pub scrape_marketplace_done : ℕ
  pub scrape_error : Option String
  pub current_stage : String

-- the row of the parent job
pub record Job : Type 0 where
  pub status : String
  pub metadata : TickMetadata

-- the door behind `touch` writes the row, rejects the write without a word, or raises
pub data Touch : Type 0 where
  written : Touch
  rejected : Touch
  raised : Touch

pub record Answers : Type 0 where
  pub lock : Option Bool
  pub loads : Bool
  pub active_codes : Option (List String)
  pub reap_stale_children : Bool
  pub reconcile_pending_children : Option ℕ
  pub count_active_children : Option ℕ
  pub create_pending_child : String → Option String
  pub dispatches : Bool
  pub reap_stale_scrape_children : Bool
  pub reconcile_pending_scrape_children : Option ℕ
  pub count_active_scrape_children : Option ℕ
  pub active_scrape_codes : Option (List String)
  pub cohort_remainder : String → ℕ
  pub create_pending_scrape_child : String → Option String
  pub parse_last_dispatched_at : Option String → ℕ
  pub now : String
  pub discovery_seed : Option (Dict Seed)
  pub scrape_seed : Option (Dict Seed)
  pub log_rows : List LogRow
  pub domain_map : Dict String
  pub completes : Bool
  pub completion_written : Bool
  pub touch : Touch
  -- `apply_async` of the next tick, called from the body and from `finally`
  pub reenqueue : Bool
  pub finally_reenqueue : Bool

pub data TickStatus : Type 0 where
  lock_error : TickStatus
  locked : TickStatus
  not_found : TickStatus
  stopped : String → TickStatus
  phase_advanced : String → TickStatus
  ticking : String → ℕ → ℕ → ℕ → TickStatus
  complete : String → TickStatus
  unknown_phase : String → TickStatus

-- what a tick does: its status (`none`: an exception leaves it), the variable `phase` at its end,
-- the children sent, the metadata and the result that it writes, and the countdowns of the ticks
-- that it schedules
pub record Run : Type 0 where
  pub status : Option TickStatus
  pub phase : Option String
  pub sent : List String
  pub stored : Option TickMetadata
  pub completed : Option JobFields
  pub scheduled : List ℕ

abbrev pub returns : TickStatus → Option String → Run
returns status phase = record {
  status = some status;
  phase = phase;
  sent = [];
  stored = none;
  completed = none;
  scheduled = [];
}

-- an exception leaves the body
abbrev pub raises : Option String → Run
raises phase = record {
  status = none;
  phase = phase;
  sent = [];
  stored = none;
  completed = none;
  scheduled = [];
}

-- a value that may be missing, or a call that may raise
abbrev pub given {ℓ κ} : {X : Type ℓ} {R : Type κ} → Option X → R → (X → R) → R
given none otherwise next = otherwise
given (some x) otherwise next = next x

abbrev pub on_touch {κ} : {R : Type κ} → Touch → R → R → R → R
on_touch written a b c = a
on_touch rejected a b c = b
on_touch raised a b c = c
