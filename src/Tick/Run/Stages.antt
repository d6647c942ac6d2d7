-- ===== src/Tick/Run/Stages.antt =====
-- The stages of a run, and how one tick moves a run through them.
use imperecta.Base.{
  if-Has, ◌-◌, ◌=?◌, length, String, ◌≡◌, refl, inl, inr, Bool, true, false, not, ◌==◌, Option,
  none, some, List, if◌then◌else◌, is_empty,
}
use imperecta.Completion.{decide_parent_status, count_completed, is_given}
use imperecta.PipelineJob.{JobFields, complete_pipeline_job}
use imperecta.Tick.Branches.{given-Has}
use imperecta.Tick.Row.{complete, TickMetadata, Job, Answers, Run, raises}
use imperecta.Tick.Run.{returns, complete_phase, run_phase, count_and_run, after}
use imperecta.Tick.Run.Writes.{Writes, IsCompleting, AfterDiscovery, AfterScrape}
use imperecta.Tick.Run.Progress.{IsConsistent, discovering, scraping, completing}

-- the life of a run as the phases name it; `lost` is a phase that `run_tick` does not know
pub data Stage : Type 0 where
  waits : Stage
  discovers : Stage
  scrapes : Stage
  completes : Stage
  over : Stage
  lost : Stage

pub data Next : Stage → Stage → Type 0 where
  begun : Next waits discovers
  discovered : Next discovers scrapes
  scraped : Next scrapes completes
  completed : Next completes over

pub data Steps (s : Stage) : Stage → Type 0 where
  here : Steps s s
  next : {t u : Stage} → Steps s t → Next t u → Steps s u

unfoldable pub stage_of_phase : Option String → Stage
stage_of_phase none = waits
stage_of_phase (some phase) =
    if phase == "discovery"
    then discovers
    else if phase == "scrape"
    then scrapes
    else if phase == "complete"
    then completes
    else lost

unfoldable pub stage_of : Job → Stage
stage_of job = if job.status == "running" then stage_of_phase job.metadata.phase else over

-- After the run the metadata is consistent, and the stage of the job has moved along `Next`.
pub record Follows (job : Job) (run : Run) : Type 0 where
  pub consistent : IsConsistent (after run job).metadata
  pub steps : Steps (stage_of job) (stage_of (after run job))

pub unchanged-Follows :
    (job : Job) (run : Run)
    → run.stored ≡ none
    → run.completed ≡ none
    → IsConsistent job.metadata
    → Follows job run
unfolding after
unchanged-Follows job run s c known = record {
  consistent = rw (s, c) known;
  steps = rw (s, c) here;
}

stored-Follows :
    (job : Job) (run : Run) (m : TickMetadata)
    → run.stored ≡ some m
    → run.completed ≡ none
    → IsConsistent m
    → Steps (stage_of job) (stage_of (record job { metadata = m }))
    → Follows job run
unfolding after
stored-Follows job run m s c known steps = record {
  consistent = rw (s, c) known;
  steps = rw (s, c) steps;
}

pub running_stage :
    (job : Job) (phase : Option String)
    → job.status ≡ "running"
    → job.metadata.phase ≡ phase
    → stage_of job ≡ stage_of_phase phase
unfolding stage_of
running_stage job phase running e = rw (running, e) refl

pub discovery-Follows :
    (job : Job) (run : Run)
    → job.status ≡ "running"
    → IsConsistent job.metadata
    → Steps (stage_of job) discovers
    → Writes AfterDiscovery run
    → Follows job run
unfolding stage_of_phase
discovery-Follows job run running known steps written = elim (written.stores) [
  | inl e ↦ unchanged-Follows job run e written.uncompleted known
  | inr (m, e, inl d) ↦
      stored-Follows job run m e written.uncompleted (discovering d) (
        rw (running_stage (record job { metadata = m }) (some "discovery") running d.phase_is)
          steps)
  | inr (m, e, inr s) ↦ stored-Follows job run m e written.uncompleted (scraping s) (
      rw (running_stage (record job { metadata = m }) (some "scrape") running s.phase_is)
        (next steps discovered))
]

pub scrape-Follows :
    (job : Job) (run : Run)
    → job.status ≡ "running"
    → IsConsistent job.metadata
    → Steps (stage_of job) scrapes
    → Writes AfterScrape run
    → Follows job run
unfolding stage_of_phase
scrape-Follows job run running known steps written = elim (written.stores) [
  | inl e ↦ unchanged-Follows job run e written.uncompleted known
  | inr (m, e, inl s) ↦
      stored-Follows job run m e written.uncompleted (scraping s)
        (rw (running_stage (record job { metadata = m }) (some "scrape") running s.phase_is) steps)
  | inr (m, e, inr c) ↦ stored-Follows job run m e written.uncompleted (completing c) (
      rw (running_stage (record job { metadata = m }) (some "complete") running c.phase_is)
        (next steps scraped))
]

abbrev IsNotRunning : String → Type 0
IsNotRunning status = status == "running" ≡ false

choice-IsNotRunning :
    (a b c d : Bool)
    → IsNotRunning (
        if a
        then "failed"
        else if b
        then "failed"
        else if c
        then "completed"
        else if d
        then "failed"
        else "partial")
choice-IsNotRunning true b c d = refl
choice-IsNotRunning false true c d = refl
choice-IsNotRunning false false true d = refl
choice-IsNotRunning false false false true = refl
choice-IsNotRunning false false false false = refl

-- the status of a run that is decided is not "running"
decided_status :
    (statuses : List String) (e : Option String) → IsNotRunning (decide_parent_status statuses e)
unfolding decide_parent_status
decided_status statuses e =
    let done = count_completed statuses in
    choice-IsNotRunning (is_given e) (is_empty statuses) (length statuses - done =? 0) (done =? 0)

completed-Follows :
    (job : Job) (run : Run) (result : JobFields)
    → run.stored ≡ none
    → run.completed ≡ some result
    → result.status == "running" ≡ false
    → IsConsistent job.metadata
    → Steps (stage_of job) over
    → Follows job run
unfolding after stage_of
completed-Follows job run result s c decided known steps = record {
  consistent = rw (s, c) known;
  steps = rw (s, c, decided) steps;
}

complete_phase-Follows :
    (w : Answers) (job : Job) (m : TickMetadata)
    → job.status ≡ "running"
    → IsCompleting job.metadata
    → Follows job (complete_phase w m)
unfolding complete_phase complete_pipeline_job stage_of_phase
complete_phase-Follows w job m running c =
    let failed = unchanged-Follows job (raises (some "complete")) refl refl (completing c) in
    let steps : Steps (stage_of job) over =
      rw (running_stage job (some "complete") running c.phase_is) (next here completed) in
    given-Has (Follows job) w.discovery_seed failed λ discovery_seed.
      given-Has (Follows job) w.scrape_seed failed λ scrape_seed.
        if-Has (Follows job) (not w.completes) failed (
          if-Has (Follows job) w.completion_written
            (completed-Follows job _ _ refl refl (decided_status _ _) (completing c) steps)
            (unchanged-Follows job (returns (complete "running") (some "complete")) refl refl
              (completing c)))

pub complete-Follows :
    (w : Answers) (job : Job)
    → job.status ≡ "running"
    → IsCompleting job.metadata
    → Follows job (count_and_run w "complete" job.metadata)
unfolding count_and_run run_phase
complete-Follows w job running c =
    let failed = unchanged-Follows job (raises (some "complete")) refl refl (completing c) in
    if-Has (Follows job) (not w.reap_stale_children) failed (
      given-Has (Follows job) w.reconcile_pending_children failed
        λ reapplied. complete_phase-Follows w job _ running c)
