-- ===== src/Tick/Run.antt =====
-- `run_tick` of backend/app/modules/scraper/pipeline/tick_orchestrator.py, one step of a run, with
-- `touch` of backend/app/modules/scraper/pipeline/metadata_store.py. Of a dispatch loop that raises,
-- the children that it had sent are left out. Left out too are the log lines, the heartbeat and the
-- release of the lock, which cannot raise. The theorems are in `Schedule`, `Phases` and `Progress`.
pub mod Schedule
pub mod Stops
pub mod Writes
pub mod ScrapeWrites
pub mod Progress
pub mod Stages
pub mod Reachable
use imperecta.Base.{
  ℕ, ◌+◌, ◌-◌, suc, ltb, String, Bool, true, false, not, ◌&&◌, ◌||◌, ◌==◌, Option, none, some, List,
  [], ◌∷◌, is_empty, length, elem, Dict, or_else, if◌then◌else◌,
}
use imperecta.Tick.{
  Dispatch, tick_min_seconds, tick_max_seconds, next_backoff, discovery_loop, scrape_loop,
  ScrapeQueue, build_scrape_dispatch_queue, discovery_over, scrape_over,
}
use imperecta.Completion.{merge_phase_seeds}
use imperecta.PipelineJob.{complete_pipeline_job}
use imperecta.Tick.Row.{
  TickMetadata, Job, on_touch, Answers, TickStatus, Run, returns, raises, given, lock_error, locked,
  not_found, stopped, phase_advanced, ticking, complete, unknown_phase,
}

-- `_schedule_next_tick(countdown_s)`, then `return`
unfoldable pub schedule_next_tick : Bool → ℕ → Run → Run
schedule_next_tick true countdown_s run = record run { scheduled = countdown_s ∷ [] }
schedule_next_tick false countdown_s run = record run { status = none }

-- `store.touch`, then `_schedule_next_tick`, then `return`
unfoldable pub touch_and_schedule :
    Answers → String → List String → TickMetadata → ℕ → TickStatus → Run
touch_and_schedule w phase sent metadata countdown_s status =
    let done = record (returns status (some phase)) { sent = sent } in
    on_touch w.touch
      (schedule_next_tick w.reenqueue countdown_s (record done { stored = some metadata }))
      (schedule_next_tick w.reenqueue countdown_s done)
      (record (raises (some phase)) { sent = sent })

-- the end of a phase that goes on
unfoldable pub keep_ticking : Answers → String → Dispatch → TickMetadata → Run
keep_ticking w phase d metadata =
    let backoff = next_backoff (or_else metadata.backoff_s tick_min_seconds) d.dispatched in
    touch_and_schedule w phase d.sent
      (record metadata { backoff_s = some backoff; current_stage = phase }) backoff
      (ticking phase (length d.queue) d.active backoff)

-- the end of a phase that is over
unfoldable pub advance : Answers → String → String → String → Dispatch → TickMetadata → Run
advance w phase next_phase stage d metadata =
    touch_and_schedule w phase d.sent
      (record metadata {
        phase = some next_phase;
        backoff_s = some tick_min_seconds;
        current_stage = stage;
      })
      tick_min_seconds (phase_advanced next_phase)

-- the first tick
unfoldable pub start_discovery : List String → TickMetadata → TickMetadata
start_discovery codes metadata = record metadata {
  phase = some "discovery";
  mp_queue = codes;
  mp_total = some (length codes);
  tick_count = 0;
  backoff_s = some tick_min_seconds;
  resume_attempts = 0;
}

unfoldable pub discovery_phase : Answers → Bool → TickMetadata → Run
discovery_phase w dispatched metadata =
    given w.count_active_children (raises (some "discovery")) λ active.
      let d = discovery_loop w.create_pending_child metadata.mp_queue active dispatched in
      if not w.dispatches
      then raises (some "discovery")
      else given metadata.mp_total (record (raises (some "discovery")) { sent = d.sent })
          λ total.
            let m = record metadata {
              mp_queue = d.queue;
              discovery_marketplace_total = total;
              discovery_marketplace_done = total - length d.queue - d.active;
            } in
            if discovery_over d.queue d.active
            then advance w "discovery" "scrape" "scrape" d m
            else keep_ticking w "discovery" d m

-- the first tick of the scrape phase
unfoldable pub start_scrape : List String → String → TickMetadata → TickMetadata
start_scrape codes now metadata = record metadata {
  scrape_marketplace_codes = codes;
  scrape_queue = some codes;
  scrape_total = length codes;
  scrape_phase_started_at = some now;
}

unfoldable pub all_codes : TickMetadata → List String
all_codes metadata =
    if is_empty metadata.scrape_marketplace_codes
    then or_else metadata.scrape_queue []
    else metadata.scrape_marketplace_codes

unfoldable pub dispatch_scrapes : Answers → TickMetadata → ScrapeQueue → ℕ → Bool → Run
dispatch_scrapes w metadata built active dispatched =
    let d =
      scrape_loop w.parse_last_dispatched_at w.now w.cohort_remainder w.create_pending_scrape_child
        (length built.eligible) built.eligible active dispatched
        metadata.scrape_last_dispatched_at in
    let m = record metadata {
      scrape_queue = some d.queue;
      scrape_last_dispatched_at = d.last_dispatched;
      scrape_marketplace_total = length (all_codes metadata);
      scrape_marketplace_done = built.drained;
    } in
    if not w.dispatches
    then raises (some "scrape")
    else if scrape_over d.queue d.active built.drained (all_codes metadata)
    then advance w "scrape" "complete" "persist" d m
    else keep_ticking w "scrape" d m

unfoldable pub scrape_phase_on : Answers → Bool → TickMetadata → Run
scrape_phase_on w dispatched metadata =
    if not w.reap_stale_scrape_children
    then raises (some "scrape")
    else given w.reconcile_pending_scrape_children (raises (some "scrape")) λ reapplied.
      given w.count_active_scrape_children (raises (some "scrape")) λ active.
        given w.active_scrape_codes (raises (some "scrape")) λ active_codes.
          dispatch_scrapes w metadata
            (build_scrape_dispatch_queue w.cohort_remainder active_codes (all_codes metadata))
            active (ltb 0 reapplied || dispatched)

unfoldable pub scrape_phase : Answers → Bool → TickMetadata → Run
scrape_phase w dispatched metadata =
    given metadata.scrape_queue
      (given w.active_codes (raises (some "scrape"))
        λ codes. scrape_phase_on w dispatched (start_scrape codes w.now metadata))
      λ queue. scrape_phase_on w dispatched metadata

-- `discovery_ms`, `scrape_ms` and `persist_ms` are 0. The row that was loaded is not read again: its
-- status, which is reported, is still `running`. A write that the door rejects goes unnoticed.
unfoldable pub complete_phase : Answers → TickMetadata → Run
complete_phase w metadata = given w.discovery_seed (raises (some "complete")) λ discovery_seed.
    given w.scrape_seed (raises (some "complete")) λ scrape_seed.
      let result =
        complete_pipeline_job w.log_rows w.domain_map 0 0 0
          (merge_phase_seeds discovery_seed scrape_seed) metadata.scrape_error in
      if not w.completes
      then raises (some "complete")
      else if w.completion_written
      then record (returns (complete "running") (some "complete")) { completed = some result }
      else returns (complete "running") (some "complete")

-- `if phase == "discovery"` and what follows
unfoldable pub run_phase : Answers → String → Bool → TickMetadata → Run
run_phase w phase dispatched metadata =
    if phase == "discovery"
    then discovery_phase w dispatched metadata
    else if phase == "scrape"
    then scrape_phase w dispatched metadata
    else if phase == "complete"
    then complete_phase w metadata
    else returns (unknown_phase phase) (some phase)

-- from `metadata["tick_count"] = …` on
unfoldable pub count_and_run : Answers → String → TickMetadata → Run
count_and_run w phase metadata =
    if not w.reap_stale_children
    then raises (some phase)
    else given w.reconcile_pending_children (raises (some phase)) λ reapplied.
      run_phase w phase (ltb 0 reapplied) (record metadata { tick_count = suc metadata.tick_count })

-- the body of the second `try`, after the job is loaded
unfoldable pub tick_body : Answers → Job → Run
tick_body w job =
    if not (job.status == "running")
    then returns (stopped job.status) none
    else given job.metadata.phase
        (given w.active_codes (raises none)
          λ codes. count_and_run w "discovery" (start_discovery codes job.metadata))
        λ phase. count_and_run w phase job.metadata

-- `phase is None or phase in _NON_TERMINAL_TICK_PHASES`
unfoldable pub non_terminal : Option String → Bool
non_terminal none = true
non_terminal (some phase) = elem phase ("discovery" ∷ "scrape" ∷ [])

-- the safety net in `finally`
unfoldable pub finally : Answers → Job → Run → Run
finally w job run =
    if is_empty run.scheduled
      && job.status == "running"
      && non_terminal run.phase
      && w.finally_reenqueue
    then record run { scheduled = tick_min_seconds ∷ [] }
    else run

-- `none`: no row has the job's id
unfoldable pub run_tick : Answers → Option Job → Run
run_tick w row =
    given w.lock (schedule_next_tick w.reenqueue tick_min_seconds (returns lock_error none))
      λ locked_here.
        if not locked_here
        then schedule_next_tick w.reenqueue tick_max_seconds (returns locked none)
        else if not w.loads
        then raises none
        else given row (returns not_found none) λ job. finally w job (tick_body w job)

-- the row after a tick
unfoldable pub after : Run → Job → Job
after run job =
    let m = or_else run.stored job.metadata in
    given run.completed (record job { metadata = m })
      λ result. record { status = result.status; metadata = m }
