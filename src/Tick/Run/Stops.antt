-- ===== src/Tick/Run/Stops.antt =====
-- Which ticks end the chain.
use imperecta.Base.{
  if-Has, String, ◌≡◌, ◌⊎◌, refl, inl, inr, Bool, true, false, not, ◌==◌, Option, none, some, [],
  eq_iff, Bool-cases, arith,
}
use imperecta.Tick.Branches.{given-Has, given_some-Has, if_not-Has}
use imperecta.Tick.Row.{TickMetadata, Job, Answers, Run, given, returns, raises, not_found}
use imperecta.Tick.Run.{
  complete_phase, run_phase, count_and_run, tick_body, finally, start_discovery, run_tick,
  non_terminal,
}

-- a body that ends the chain
record IsClosed (run : Run) : Type 0 where
  phase_closed : non_terminal run.phase ≡ false
  nothing : run.scheduled ≡ []

IsClosed-quiet : (run : Run) → non_terminal run.phase ≡ false → run.scheduled ≡ [] → IsClosed run
IsClosed-quiet run closed nothing = record { phase_closed = closed; nothing = nothing }

complete_phase-IsClosed : (w : Answers) (m : TickMetadata) → IsClosed (complete_phase w m)
unfolding complete_phase non_terminal
complete_phase-IsClosed w m =
    let closed = IsClosed-quiet (raises (some "complete")) refl refl in
    given-Has IsClosed w.discovery_seed closed λ discovery_seed.
      given-Has IsClosed w.scrape_seed closed λ scrape_seed.
        if-Has IsClosed (not w.completes) closed (
          if-Has IsClosed w.completion_written (IsClosed-quiet _ refl refl)
            (IsClosed-quiet _ refl refl))

run_phase-IsClosed :
    (w : Answers) (phase : String) (dispatched : Bool) (m : TickMetadata)
    → non_terminal (some phase) ≡ false
    → IsClosed (run_phase w phase dispatched m)
unfolding run_phase non_terminal
run_phase-IsClosed w phase dispatched m closed =
    let not_discovery = eq_iff "discovery" phase in
    let not_scrape = eq_iff "scrape" phase in
    elim (Bool-cases (phase == "discovery")) [
      | inl e ↦ absurd (ground (arith, eq_iff phase "discovery"))
      | inr n ↦ elim (Bool-cases (phase == "scrape")) [
        | inl e ↦ absurd (ground (arith, eq_iff phase "scrape"))
        | inr o ↦
            rw (n, o)
              (if-Has IsClosed (phase == "complete") (complete_phase-IsClosed w m)
                (IsClosed-quiet _ closed refl))
      ]
    ]

count_and_run-IsClosed :
    (w : Answers) (phase : String) (m : TickMetadata)
    → non_terminal (some phase) ≡ false
    → IsClosed (count_and_run w phase m)
unfolding count_and_run
count_and_run-IsClosed w phase m closed =
    let failed = IsClosed-quiet (raises (some phase)) closed refl in
    if-Has IsClosed (not w.reap_stale_children) failed (
      given-Has IsClosed w.reconcile_pending_children failed
        λ reapplied. run_phase-IsClosed w phase _ _ closed)

-- no job, a job that is not running, or one in a phase that does not go on
abbrev pub IsTerminal : Option Job → Type 0
IsTerminal none = Unit
IsTerminal (some job) =
    (job.status == "running" ≡ false) ⊎ (non_terminal job.metadata.phase ≡ false)

finally-closed :
    (w : Answers) (job : Job) (run : Run) → IsClosed run → (finally w job run).scheduled ≡ []
unfolding finally
finally-closed w job run closed = rw (closed.nothing, closed.phase_closed) (ground arith)

finally-not_running :
    (w : Answers) (job : Job)
    → job.status == "running" ≡ false
    → (finally w job (tick_body w job)).scheduled ≡ []
unfolding finally tick_body
finally-not_running w job n = rw n refl

started-IsClosed :
    (w : Answers) (m : TickMetadata) (phase : Option String)
    → non_terminal phase ≡ false
    → IsClosed (
        given phase
          (given w.active_codes
            (raises none)
            λ codes. count_and_run w "discovery" (start_discovery codes m))
          λ p. count_and_run w p m)
unfolding non_terminal
started-IsClosed w m none closed = absurd (cc)
started-IsClosed w m (some phase) closed = count_and_run-IsClosed w phase m closed

finally-phase_closed :
    (w : Answers) (job : Job)
    → non_terminal job.metadata.phase ≡ false
    → (finally w job (tick_body w job)).scheduled ≡ []
unfolding tick_body
finally-phase_closed w job closed = elim (Bool-cases (job.status == "running")) [
  | inr n ↦ finally-not_running w job n
  | inl e ↦ finally-closed w job (tick_body w job) (
      if_not-Has IsClosed (job.status == "running") _ e
        (started-IsClosed w job.metadata job.metadata.phase closed))
]

abbrev IsLast : Run → Type 0
IsLast run = run.scheduled ≡ []

loaded-IsLast :
    (w : Answers) (row : Option Job)
    → IsTerminal row
    → IsLast (given row (returns not_found none) λ job. finally w job (tick_body w job))
loaded-IsLast w none terminal = refl
loaded-IsLast w (some job) (inl n) = finally-not_running w job n
loaded-IsLast w (some job) (inr closed) = finally-phase_closed w job closed

-- A tick that takes the lock and loads the row schedules no further tick when there is no row, when
-- the job is not running, or when its phase is "complete" or unknown.
pub run_tick-stops :
    (w : Answers) (row : Option Job)
    → w.lock ≡ some true
    → IsTerminal row
    → (run_tick w row).scheduled ≡ []
unfolding run_tick
run_tick-stops w row lock terminal =
    given_some-Has IsLast w.lock true _ _ lock
      (if-Has IsLast (not w.loads) refl (loaded-IsLast w row terminal))
