-- ===== src/Tick/Run/Schedule.antt =====
-- Which ticks schedule the next one.
use imperecta.Base.{
  if-Has, ℕ, ◌≤◌, eq_iff, String, ◌≡◌, ◌⊎◌, refl, inl, inr, Bool, true, false, not, ◌==◌,
  Bool-cases, Option, none, some, List, [], ◌∷◌, arith, or_else,
}
use imperecta.Tick.{Dispatch, discovery_loop, discovery_over, ScrapeQueue}
use imperecta.Tick.Backoff.{next_backoff-bounds}
use imperecta.Tick.Row.{TickMetadata, Job, Answers, Run, TickStatus, given, raises}
use imperecta.Tick.Branches.{given-Has, if_not-Has, on_touch-Has}
use imperecta.Tick.Run.{
  schedule_next_tick, touch_and_schedule, keep_ticking, advance, discovery_phase, scrape_phase,
  scrape_phase_on, dispatch_scrapes, run_phase, count_and_run, start_scrape, start_discovery,
  tick_body, finally, run_tick, non_terminal,
}

-- At most one countdown, and that one between 5 and 60 seconds.
abbrev IsPaced : List ℕ → Type 0
IsPaced scheduled = (scheduled ≡ []) ⊎ ((c : ℕ) × (scheduled ≡ c ∷ []) × (5 ≤ c) × (c ≤ 60))

-- a body that may still schedule the next tick
record IsOpen (run : Run) : Type 0 where
  phase_open : non_terminal run.phase ≡ true
  paced : IsPaced run.scheduled

schedule-IsOpen :
    (up : Bool) (c : ℕ) (run : Run)
    → 5 ≤ c
    → c ≤ 60
    → run.scheduled ≡ []
    → non_terminal run.phase ≡ true
    → IsOpen (schedule_next_tick up c run)
unfolding schedule_next_tick
schedule-IsOpen true c run low high e live = record {
  phase_open = live;
  paced = inr (c, refl, low, high);
}
schedule-IsOpen false c run low high e live = record { phase_open = live; paced = inl e }

raises-IsOpen :
    (phase : Option String) (sent : List String)
    → non_terminal phase ≡ true
    → IsOpen (record (raises phase) { sent = sent })
raises-IsOpen phase sent live = record { phase_open = live; paced = inl refl }

touch-IsOpen :
    (w : Answers) (phase : String) (sent : List String) (m : TickMetadata) (c : ℕ)
    (status : TickStatus)
    → 5 ≤ c
    → c ≤ 60
    → non_terminal (some phase) ≡ true
    → IsOpen (touch_and_schedule w phase sent m c status)
unfolding touch_and_schedule
touch-IsOpen w phase sent m c status low high live =
    on_touch-Has IsOpen w.touch (schedule-IsOpen w.reenqueue c _ low high refl live)
      (schedule-IsOpen w.reenqueue c _ low high refl live) (raises-IsOpen (some phase) sent live)

-- the stored backoff, or 5 seconds, is between 5 and 60 seconds
abbrev pub HasBackoff : TickMetadata → Type 0
HasBackoff m = (5 ≤ or_else m.backoff_s 5) × (or_else m.backoff_s 5 ≤ 60)

keep_ticking-IsOpen :
    (w : Answers) (phase : String) (d : Dispatch) (m : TickMetadata)
    → HasBackoff m
    → non_terminal (some phase) ≡ true
    → IsOpen (keep_ticking w phase d m)
unfolding keep_ticking
keep_ticking-IsOpen w phase d m b live =
    let bounds = next_backoff-bounds (or_else m.backoff_s 5) d.dispatched b.0 b.1 in
    touch-IsOpen w phase d.sent _ _ _ bounds.0 bounds.1 live

advance-IsOpen :
    (w : Answers) (phase next_phase stage : String) (d : Dispatch) (m : TickMetadata)
    → non_terminal (some phase) ≡ true
    → IsOpen (advance w phase next_phase stage d m)
unfolding advance
advance-IsOpen w phase next_phase stage d m live =
    touch-IsOpen w phase d.sent _ 5 _ (omega arith) (omega arith) live

discovery_phase-IsOpen :
    (w : Answers) (dispatched : Bool) (m : TickMetadata)
    → HasBackoff m
    → IsOpen (discovery_phase w dispatched m)
unfolding discovery_phase non_terminal
discovery_phase-IsOpen w dispatched m b =
    given-Has IsOpen w.count_active_children (raises-IsOpen _ [] refl) λ active.
      let d = discovery_loop w.create_pending_child m.mp_queue active dispatched in
      if-Has IsOpen (not w.dispatches) (raises-IsOpen _ [] refl) (
        given-Has IsOpen m.mp_total (raises-IsOpen _ d.sent refl) λ total.
          if-Has IsOpen (discovery_over d.queue d.active)
            (advance-IsOpen w "discovery" "scrape" "scrape" d _ refl)
            (keep_ticking-IsOpen w "discovery" d _ b refl))

dispatch_scrapes-IsOpen :
    (w : Answers) (m : TickMetadata) (built : ScrapeQueue) (active : ℕ) (dispatched : Bool)
    → HasBackoff m
    → IsOpen (dispatch_scrapes w m built active dispatched)
unfolding dispatch_scrapes non_terminal
dispatch_scrapes-IsOpen w m built active dispatched b =
    if-Has IsOpen (not w.dispatches) (raises-IsOpen _ [] refl) (
      if-Has IsOpen _ (advance-IsOpen w "scrape" "complete" "persist" _ _ refl)
        (keep_ticking-IsOpen w "scrape" _ _ b refl))

scrape_phase_on-IsOpen :
    (w : Answers) (dispatched : Bool) (m : TickMetadata)
    → HasBackoff m
    → IsOpen (scrape_phase_on w dispatched m)
unfolding scrape_phase_on non_terminal
scrape_phase_on-IsOpen w dispatched m b =
    let failed = raises-IsOpen (some "scrape") [] refl in
    if-Has IsOpen (not w.reap_stale_scrape_children) failed (
      given-Has IsOpen w.reconcile_pending_scrape_children failed λ reapplied.
        given-Has IsOpen w.count_active_scrape_children failed λ active.
          given-Has IsOpen w.active_scrape_codes failed
            λ active_codes. dispatch_scrapes-IsOpen w m _ active _ b)

scrape_phase-IsOpen :
    (w : Answers) (dispatched : Bool) (m : TickMetadata)
    → HasBackoff m
    → IsOpen (scrape_phase w dispatched m)
unfolding scrape_phase start_scrape non_terminal
scrape_phase-IsOpen w dispatched m b =
    given-Has IsOpen m.scrape_queue
      (given-Has IsOpen w.active_codes (raises-IsOpen (some "scrape") [] refl)
        λ codes. scrape_phase_on-IsOpen w dispatched (start_scrape codes w.now m) b)
      λ queue. scrape_phase_on-IsOpen w dispatched m b

run_phase-IsOpen :
    (w : Answers) (phase : String) (dispatched : Bool) (m : TickMetadata)
    → HasBackoff m
    → non_terminal (some phase) ≡ true
    → IsOpen (run_phase w phase dispatched m)
unfolding run_phase non_terminal
run_phase-IsOpen w phase dispatched m b live = elim (Bool-cases (phase == "discovery")) [
  | inl e ↦ rw e (discovery_phase-IsOpen w dispatched m b)
  | inr n ↦ elim (Bool-cases (phase == "scrape")) [
    | inl e ↦ rw (n, e) (scrape_phase-IsOpen w dispatched m b)
    | inr o ↦ absurd (
        ground (
          arith,
          eq_iff phase "discovery",
          eq_iff phase "scrape",
          eq_iff "discovery" phase,
          eq_iff "scrape" phase,
        ))
  ]
]

count_and_run-IsOpen :
    (w : Answers) (phase : String) (m : TickMetadata)
    → HasBackoff m
    → non_terminal (some phase) ≡ true
    → IsOpen (count_and_run w phase m)
unfolding count_and_run
count_and_run-IsOpen w phase m b live =
    if-Has IsOpen (not w.reap_stale_children) (raises-IsOpen (some phase) [] live) (
      given-Has IsOpen w.reconcile_pending_children (raises-IsOpen (some phase) [] live)
        λ reapplied. run_phase-IsOpen w phase _ _ b live)

started-IsOpen :
    (w : Answers) (m : TickMetadata) (phase : Option String)
    → non_terminal phase ≡ true
    → HasBackoff m
    → IsOpen (
        given phase
          (given w.active_codes
            (raises none)
            λ codes. count_and_run w "discovery" (start_discovery codes m))
          λ p. count_and_run w p m)
unfolding start_discovery non_terminal
started-IsOpen w m none live b =
    given-Has IsOpen w.active_codes (raises-IsOpen none [] refl) λ codes.
      count_and_run-IsOpen w "discovery" (start_discovery codes m) (omega arith, omega arith) refl
started-IsOpen w m (some phase) live b = count_and_run-IsOpen w phase m b live

-- whatever raises, a running job in a phase that goes on ends the body with the phase open
tick_body-IsOpen :
    (w : Answers) (job : Job)
    → job.status ≡ "running"
    → non_terminal job.metadata.phase ≡ true
    → HasBackoff job.metadata
    → IsOpen (tick_body w job)
unfolding tick_body
tick_body-IsOpen w job running live b =
    rw running (started-IsOpen w job.metadata job.metadata.phase live b)

-- exactly one countdown, between 5 and 60 seconds
abbrev pub Continues : Run → Type 0
Continues run = (c : ℕ) × (run.scheduled ≡ c ∷ []) × (5 ≤ c) × (c ≤ 60)

finally-Continues :
    (w : Answers) (job : Job) (run : Run)
    → job.status ≡ "running"
    → w.finally_reenqueue ≡ true
    → IsOpen run
    → Continues (finally w job run)
unfolding finally
finally-Continues w job run running net live = elim (live.paced) [
  | inl e ↦ rw (e, running, live.phase_open, net) (5, refl, omega arith, omega arith)
  | inr (c, e, low, high) ↦ rw e (c, refl, low, high)
]

schedule-Continues :
    (up : Bool) (c : ℕ) (run : Run)
    → 5 ≤ c
    → c ≤ 60
    → up ≡ true
    → Continues (schedule_next_tick up c run)
unfolding schedule_next_tick
schedule-Continues true c run low high e = (c, refl, low, high)
schedule-Continues false c run low high e = absurd (cc)

-- Whatever the lock answers and whichever call of the body raises, a tick of a running job in a
-- phase that goes on, with a backoff of 5 to 60 seconds, schedules exactly one further tick, 5 to 60
-- seconds ahead, when the job loads and the broker takes what is sent.
pub run_tick-Continues :
    (w : Answers) (job : Job)
    → job.status ≡ "running"
    → non_terminal job.metadata.phase ≡ true
    → HasBackoff job.metadata
    → w.loads ≡ true
    → w.reenqueue ≡ true
    → w.finally_reenqueue ≡ true
    → Continues (run_tick w (some job))
unfolding run_tick
run_tick-Continues w job running live b loads up net =
    given-Has Continues w.lock (schedule-Continues w.reenqueue 5 _ (omega arith) (omega arith) up)
      λ here.
        if-Has Continues (not here)
          (schedule-Continues w.reenqueue 60 _ (omega arith) (omega arith) up)
          (if_not-Has Continues w.loads (raises none) loads
            (finally-Continues w job _ running net (tick_body-IsOpen w job running live b)))
