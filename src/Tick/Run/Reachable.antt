-- ===== src/Tick/Run/Reachable.antt =====
-- Every state that a run can reach.
use imperecta.Base.{
  if-Has, ℕ, String, ◌≡◌, refl, sym, ap, ◌∙◌, Bool, true, false, not, ◌&&◌, ◌==◌, Bool-cases,
  eq_iff, inl, inr, none, some, [], ◌∷◌, arith, is_empty, or_else,
}
use imperecta.Tick.Branches.{given-Has, given_none-Has, given_some-Has}
use imperecta.Tick.Row.{TickMetadata, Job, Answers, Run, TickStatus, given, returns, raises}
use imperecta.Tick.Run.{
  schedule_next_tick, start_discovery, count_and_run, tick_body, finally, run_tick, after,
  non_terminal,
}
use imperecta.Tick.Run.Writes.{IsCompleting}
use imperecta.Tick.Run.Progress.{
  IsFresh, IsConsistent, fresh, discovering, scraping, completing, count_discovery-Writes,
  count_scrape-Writes,
}
use imperecta.Tick.Run.Stages.{
  begun, here, next, stage_of_phase, Follows, unchanged-Follows, running_stage, discovery-Follows,
  scrape-Follows, complete-Follows,
}

fresh-Follows :
    (w : Answers) (job : Job)
    → job.status ≡ "running"
    → IsFresh job.metadata
    → Follows job (
        given w.active_codes
          (raises none)
          λ codes. count_and_run w "discovery" (start_discovery codes job.metadata))
unfolding start_discovery stage_of_phase
fresh-Follows w job running f =
    given-Has (Follows job) w.active_codes (unchanged-Follows job (raises none) refl refl (fresh f))
      λ codes.
        discovery-Follows job _ running (fresh f)
          (rw (running_stage job none running f.phase_is) (next here begun))
          (count_discovery-Writes w (start_discovery codes job.metadata) refl
            (omega arith, omega arith) f.counted.scraped)

running-Follows :
    (w : Answers) (job : Job)
    → job.status ≡ "running"
    → IsConsistent job.metadata
    → Follows job (
        given job.metadata.phase
          (given w.active_codes
            (raises none)
            λ codes. count_and_run w "discovery" (start_discovery codes job.metadata))
          λ phase. count_and_run w phase job.metadata)
unfolding stage_of_phase
running-Follows w job running (fresh f) =
    given_none-Has (Follows job) job.metadata.phase _ _ f.phase_is (fresh-Follows w job running f)
running-Follows w job running (discovering d) =
    given_some-Has (Follows job) job.metadata.phase "discovery" _ _ d.phase_is (
      discovery-Follows job _ running (discovering d)
        (rw (running_stage job (some "discovery") running d.phase_is) here)
        (count_discovery-Writes w job.metadata d.phase_is d.counted.backoff d.counted.scraped))
running-Follows w job running (scraping s) =
    given_some-Has (Follows job) job.metadata.phase "scrape" _ _ s.phase_is (
      scrape-Follows job _ running (scraping s)
        (rw (running_stage job (some "scrape") running s.phase_is) here)
        (count_scrape-Writes w job.metadata s))
running-Follows w job running (completing c) =
    given_some-Has (Follows job) job.metadata.phase "complete" _ _ c.phase_is
      (complete-Follows w job running c)

tick_body-Follows :
    (w : Answers) (job : Job) → IsConsistent job.metadata → Follows job (tick_body w job)
unfolding tick_body
tick_body-Follows w job known = elim (Bool-cases (job.status == "running")) [
  | inr n ↦ rw n (unchanged-Follows job _ refl refl known)
  | inl e ↦ rw e (running-Follows w job ((eq_iff job.status "running").0 e) known)
]

finally-Follows :
    (w : Answers) (job : Job) (run : Run) → Follows job run → Follows job (finally w job run)
unfolding finally after
finally-Follows w job run f =
    let net =
      is_empty run.scheduled
      && job.status == "running"
      && non_terminal run.phase
      && w.finally_reenqueue in
    if-Has (Follows job) net {x = record run { scheduled = 5 ∷ [] }}
      (record { consistent = f.consistent; steps = f.steps }) f

schedule-Follows :
    (up : Bool) (c : ℕ) (job : Job) (status : TickStatus)
    → IsConsistent job.metadata
    → Follows job (schedule_next_tick up c (returns status none))
unfolding schedule_next_tick
schedule-Follows true c job status known = unchanged-Follows job _ refl refl known
schedule-Follows false c job status known = unchanged-Follows job _ refl refl known

-- Whatever a tick meets, it leaves the metadata of a consistent job consistent, and moves its stage
-- only along the stages waits, discovers, scrapes, completes and over, in this order.
pub run_tick-Follows :
    (w : Answers) (job : Job) → IsConsistent job.metadata → Follows job (run_tick w (some job))
unfolding run_tick
run_tick-Follows w job known =
    given-Has (Follows job) w.lock (schedule-Follows w.reenqueue 5 job _ known) λ locked_here.
      if-Has (Follows job) (not locked_here) (schedule-Follows w.reenqueue 60 job _ known) (
        if-Has (Follows job) (not w.loads) (unchanged-Follows job (raises none) refl refl known)
          (finally-Follows w job _ (tick_body-Follows w job known)))

-- The states of a run: its first row; after a tick, whatever the tick met; after its status was
-- changed elsewhere.
pub data Reach : Job → Type 0 where
  start : (m : TickMetadata) → IsFresh m → Reach (record { status = "running"; metadata = m })
  tick : {job : Job} → Reach job → (w : Answers) → Reach (after (run_tick w (some job)) job)
  changed : {job : Job} → Reach job → (status : String) → Reach (record job { status = status })

-- The metadata of a run is consistent in every state that it reaches.
pub Reach-IsConsistent : {job : Job} → Reach job → IsConsistent job.metadata
Reach-IsConsistent (start m f) = fresh f
Reach-IsConsistent (tick r w) = (run_tick-Follows w _ (Reach-IsConsistent r)).consistent
Reach-IsConsistent (changed r status) = Reach-IsConsistent r

-- When a run reaches the phase "complete", nothing is queued, and as many marketplaces count as done
-- as there are, for the discovery and for the scrape.
pub Reach-IsCompleting :
    {job : Job} → Reach job → job.metadata.phase ≡ some "complete" → IsCompleting job.metadata
Reach-IsCompleting r phase = elim (Reach-IsConsistent r) [
  | fresh f ↦ absurd (cc)
  | discovering d ↦
      let same : false ≡ true = ap (λ p. or_else p "" == "complete") (sym d.phase_is ∙ phase) in
      absurd (cc)
  | scraping s ↦
      let same : false ≡ true = ap (λ p. or_else p "" == "complete") (sym s.phase_is ∙ phase) in
      absurd (cc)
  | completing c ↦ c
]
