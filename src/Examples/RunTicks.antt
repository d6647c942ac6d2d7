-- ===== src/Examples/RunTicks.antt =====
-- Ticks of a run.
use imperecta.PipelineJob.{
  take_text, sum_of, missing_entry, missing_entries, merged_entries, merge_entry, merge_entries,
  error_note, complete_pipeline_job,
}
use imperecta.Outcomes.{
  sum_buckets_across_marketplaces, plus, group_rows, finalize_outcome_buckets, finalize_all,
  empty_outcome_buckets, classify_scrape_log_status, aggregate_marketplace_log_rows, add_to,
  add_buckets, accumulate_status_count,
}
use imperecta.Completion.{
  merge_seed, merge_phase_seeds, merge_ids, is_given, decide_parent_status, count_completed,
}
use imperecta.Tick.{
  scrape_loop, remove, pick_next_scrape_marketplace, next_backoff, build_scrape_dispatch_queue,
  before, scrape_over, discovery_loop, discovery_over,
}
use imperecta.Base.{keep, ◌≡◌, refl, true, none, some, [], ◌∷◌, arith, inl}
use imperecta.Tick.Row.{TickMetadata, Job, written, raised, Answers}
use imperecta.Tick.Run.{
  start_scrape, complete_phase, all_codes, dispatch_scrapes, scrape_phase_on, scrape_phase,
  schedule_next_tick, advance, start_discovery, touch_and_schedule, keep_ticking, discovery_phase,
  run_phase, count_and_run, tick_body, finally, run_tick, after, non_terminal,
}
use imperecta.Tick.Run.Schedule.{Continues, run_tick-Continues}
use imperecta.Tick.Run.Stops.{run_tick-stops}
use imperecta.Tick.Run.Writes.{IsCounted, IsCompleting}
use imperecta.Tick.Run.Progress.{IsFresh, discovering}
use imperecta.Tick.Run.Stages.{Follows}
use imperecta.Tick.Run.Reachable.{Reach, start, tick, run_tick-Follows, Reach-IsCompleting}

abbrev metadata : TickMetadata
metadata = record {
  phase = none;
  mp_queue = [];
  mp_total = none;
  tick_count = 0;
  backoff_s = none;
  resume_attempts = 0;
  discovery_marketplace_total = 0;
  discovery_marketplace_done = 0;
  scrape_marketplace_codes = [];
  scrape_queue = none;
  scrape_total = 0;
  scrape_last_dispatched_at = [];
  scrape_phase_started_at = none;
  scrape_marketplace_total = 0;
  scrape_marketplace_done = 0;
  scrape_error = none;
  current_stage = "dispatching";
}

-- no marketplace is active
abbrev idle : Answers
idle = record {
  lock = some true;
  loads = true;
  active_codes = some [];
  reap_stale_children = true;
  reconcile_pending_children = some 0;
  count_active_children = some 0;
  create_pending_child = λ code. some code;
  dispatches = true;
  reap_stale_scrape_children = true;
  reconcile_pending_scrape_children = some 0;
  count_active_scrape_children = some 0;
  active_scrape_codes = some [];
  cohort_remainder = λ code. 0;
  create_pending_scrape_child = λ code. some code;
  parse_last_dispatched_at = λ at. 0;
  now = "now";
  discovery_seed = some [];
  scrape_seed = some [];
  log_rows = [];
  domain_map = [];
  completes = true;
  completion_written = true;
  touch = written;
  reenqueue = true;
  finally_reenqueue = true;
}

-- three marketplaces, and the database is lost at the end of the tick
abbrev failing : Answers
failing = record idle { active_codes = some ("a" ∷ "b" ∷ "c" ∷ []); touch = raised }

abbrev dispatched : Job
dispatched = record { status = "running"; metadata = metadata }

abbrev discovery_job : Job
discovery_job = record {
  status = "running";
  metadata = record metadata {
    phase = some "discovery";
    mp_queue = "c" ∷ [];
    mp_total = some 3;
    backoff_s = some 40;
  };
}

open_phase : non_terminal discovery_job.metadata.phase ≡ true
unfolding non_terminal
open_phase = refl

run_tick-Continues_example : Continues (run_tick failing (some discovery_job))
run_tick-Continues_example =
    run_tick-Continues failing discovery_job refl open_phase (omega arith, omega arith) refl refl
      refl

-- the tick fails, and the safety net schedules the next one
safety_net_test : (run_tick failing (some discovery_job)).scheduled ≡ 5 ∷ []
unfolding run_tick finally tick_body count_and_run run_phase discovery_phase discovery_over
    discovery_loop keep_ticking touch_and_schedule non_terminal
safety_net_test = refl

-- two children go out
sent_test : (run_tick failing (some dispatched)).sent ≡ "a" ∷ "b" ∷ []
unfolding run_tick finally tick_body count_and_run run_phase discovery_phase start_discovery
    discovery_over discovery_loop keep_ticking touch_and_schedule non_terminal
sent_test = refl

run_tick-stops_example :
    (run_tick idle (some (record discovery_job { status = "cancelled" }))).scheduled ≡ []
run_tick-stops_example =
    run_tick-stops idle (some (record discovery_job { status = "cancelled" })) refl (inl refl)

counted : IsCounted discovery_job.metadata
counted = record {
  backoff = (omega arith, omega arith);
  discovered = omega arith;
  scraped = omega arith;
}

run_tick-Follows_example : Follows discovery_job (run_tick idle (some discovery_job))
run_tick-Follows_example =
    run_tick-Follows idle discovery_job
      (discovering (record { phase_is = refl; counted = counted }))

metadata-IsFresh : IsFresh metadata
metadata-IsFresh = record {
  phase_is = refl;
  counted = record {
    backoff = (omega arith, omega arith);
    discovered = omega arith;
    scraped = omega arith;
  };
}

abbrev scrape_job : Job
scrape_job = after (run_tick idle (some dispatched)) dispatched

abbrev complete_job : Job
complete_job = after (run_tick idle (some scrape_job)) scrape_job

reached : Reach complete_job
reached = tick (tick (start metadata metadata-IsFresh) idle) idle

in_complete : complete_job.metadata.phase ≡ some "complete"
unfolding after run_tick finally tick_body count_and_run run_phase discovery_phase start_discovery
    discovery_over discovery_loop advance touch_and_schedule schedule_next_tick scrape_phase
    scrape_phase_on dispatch_scrapes scrape_over keep count_completed decide_parent_status is_given
    merge_ids merge_phase_seeds merge_seed accumulate_status_count add_buckets add_to
    aggregate_marketplace_log_rows classify_scrape_log_status empty_outcome_buckets finalize_all
    finalize_outcome_buckets group_rows plus sum_buckets_across_marketplaces complete_pipeline_job
    error_note merge_entries merge_entry merged_entries missing_entries missing_entry sum_of
    take_text all_codes complete_phase keep_ticking non_terminal start_scrape before
    build_scrape_dispatch_queue next_backoff pick_next_scrape_marketplace remove scrape_loop
in_complete = refl

Reach-IsCompleting_example : IsCompleting complete_job.metadata
Reach-IsCompleting_example = Reach-IsCompleting reached in_complete
