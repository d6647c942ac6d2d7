-- ===== src/Tick/Run/Writes.antt =====
-- What a tick writes to the metadata in each phase.
use imperecta.Base.{
  if-Has, ℕ, ◌-◌, ◌≤◌, String, ◌≡◌, ◌⊎◌, refl, inl, inr, Bool, true, false, not, Bool-cases, none,
  some, List, [], ◌∷◌, is_empty, length, or_else, arith,
}
use imperecta.Tick.{Dispatch, next_backoff, discovery_loop, discovery_over}
use imperecta.Tick.Backoff.{next_backoff-bounds}
use imperecta.Tick.Branches.{given-Has, on_touch-Has}
use imperecta.Tick.Row.{TickMetadata, Answers, TickStatus, Run, raises}
use imperecta.Tick.Run.{
  schedule_next_tick, touch_and_schedule, keep_ticking, advance, discovery_phase,
}
use imperecta.Tick.Run.Schedule.{HasBackoff}

-- The run completes nothing, and what it stores, if anything, satisfies `P`.
pub record Writes (P : TickMetadata → Type 0) (run : Run) : Type 0 where
  pub uncompleted : run.completed ≡ none
  pub stores : (run.stored ≡ none) ⊎ ((m : TickMetadata) × (run.stored ≡ some m) × P m)

-- what holds in every phase
pub record IsCounted (m : TickMetadata) : Type 0 where
  pub backoff : HasBackoff m
  pub discovered : m.discovery_marketplace_done ≤ m.discovery_marketplace_total
  pub scraped : m.scrape_marketplace_done ≤ m.scrape_marketplace_total

pub record IsDiscovering (m : TickMetadata) : Type 0 where
  pub phase_is : m.phase ≡ some "discovery"
  pub counted : IsCounted m

pub record IsScraping (m : TickMetadata) : Type 0 where
  pub phase_is : m.phase ≡ some "scrape"
  pub counted : IsCounted m
  pub queue_empty : m.mp_queue ≡ []
  pub all_discovered : m.discovery_marketplace_done ≡ m.discovery_marketplace_total

pub record IsCompleting (m : TickMetadata) : Type 0 where
  pub phase_is : m.phase ≡ some "complete"
  pub counted : IsCounted m
  pub queue_empty : m.mp_queue ≡ []
  pub all_discovered : m.discovery_marketplace_done ≡ m.discovery_marketplace_total
  pub scrape_queue_empty : m.scrape_queue ≡ some []
  pub all_scraped : m.scrape_marketplace_done ≡ m.scrape_marketplace_total

module _ (P : TickMetadata → Type 0) where
  pub nothing-Writes : (run : Run) → run.completed ≡ none → run.stored ≡ none → Writes P run
  nothing-Writes run c s = record { uncompleted = c; stores = inl s }

  schedule-Writes :
      (up : Bool) (c : ℕ) (run : Run) → Writes P run → Writes P (schedule_next_tick up c run)
  unfolding schedule_next_tick
  schedule-Writes true c run h = record { uncompleted = h.uncompleted; stores = h.stores }
  schedule-Writes false c run h = record { uncompleted = h.uncompleted; stores = h.stores }

  pub touch-Writes :
      (w : Answers) (phase : String) (sent : List String) (m : TickMetadata) (c : ℕ)
      (status : TickStatus)
      → P m
      → Writes P (touch_and_schedule w phase sent m c status)
  unfolding touch_and_schedule
  touch-Writes w phase sent m c status h =
      on_touch-Has (Writes P) w.touch
        (schedule-Writes w.reenqueue c _ (record { uncompleted = refl; stores = inr (m, refl, h) }))
        (schedule-Writes w.reenqueue c _ (nothing-Writes _ refl refl)) (nothing-Writes _ refl refl)

-- the metadata that `keep_ticking` and `advance` store
abbrev pub paced : TickMetadata → Bool → String → TickMetadata
paced m dispatched stage = record m {
  backoff_s = some (next_backoff (or_else m.backoff_s 5) dispatched);
  current_stage = stage;
}

pub paced-HasBackoff :
    (m : TickMetadata) (dispatched : Bool) (stage : String)
    → HasBackoff m
    → HasBackoff (paced m dispatched stage)
paced-HasBackoff m dispatched stage b =
    let bounds = next_backoff-bounds (or_else m.backoff_s 5) dispatched b.0 b.1 in
    (bounds.0, bounds.1)

pub empty_list : (xs : List String) → is_empty xs ≡ true → xs ≡ []
empty_list [] h = refl
empty_list (x ∷ xs) h = absurd (cc)

-- what the discovery phase leaves, and what the scrape phase leaves
abbrev pub AfterDiscovery : TickMetadata → Type 0
AfterDiscovery m = IsDiscovering m ⊎ IsScraping m

abbrev pub AfterScrape : TickMetadata → Type 0
AfterScrape m = IsScraping m ⊎ IsCompleting m

keep_discovering :
    (w : Answers) (d : Dispatch) (m : TickMetadata)
    → m.phase ≡ some "discovery"
    → IsCounted m
    → Writes AfterDiscovery (keep_ticking w "discovery" d m)
unfolding keep_ticking
keep_discovering w d m phase c = touch-Writes AfterDiscovery w "discovery" d.sent _ _ _ (
    inl (record {
      phase_is = phase;
      counted = record {
        backoff = paced-HasBackoff m d.dispatched "discovery" c.backoff;
        discovered = c.discovered;
        scraped = c.scraped;
      };
    }))

advance_to_scrape :
    (w : Answers) (d : Dispatch) (m : TickMetadata)
    → IsCounted m
    → m.mp_queue ≡ []
    → m.discovery_marketplace_done ≡ m.discovery_marketplace_total
    → Writes AfterDiscovery (advance w "discovery" "scrape" "scrape" d m)
unfolding advance
advance_to_scrape w d m c queue done = touch-Writes AfterDiscovery w "discovery" d.sent _ 5 _ (
    inr (record {
      phase_is = refl;
      counted = record {
        backoff = (omega arith, omega arith);
        discovered = c.discovered;
        scraped = c.scraped;
      };
      queue_empty = queue;
      all_discovered = done;
    }))

discovery_over-true :
    (queue : List String) (active : ℕ)
    → discovery_over queue active ≡ true
    → (queue ≡ []) × (active ≡ 0)
unfolding discovery_over
discovery_over-true [] active h = (refl, ground arith)
discovery_over-true (code ∷ queue) active h = absurd (cc)

none_left :
    (total : ℕ) (queue : List String) (active : ℕ)
    → queue ≡ []
    → active ≡ 0
    → total - length queue - active ≡ total
none_left total queue active e z = rw (e, z) (omega arith)

pub discovery_phase-Writes :
    (w : Answers) (dispatched : Bool) (m : TickMetadata)
    → m.phase ≡ some "discovery"
    → HasBackoff m
    → m.scrape_marketplace_done ≤ m.scrape_marketplace_total
    → Writes AfterDiscovery (discovery_phase w dispatched m)
unfolding discovery_phase
discovery_phase-Writes w dispatched m phase b scraped =
    let failed = nothing-Writes AfterDiscovery (raises (some "discovery")) refl refl in
    given-Has (Writes AfterDiscovery) w.count_active_children failed λ active.
      let d = discovery_loop w.create_pending_child m.mp_queue active dispatched in
      if-Has (Writes AfterDiscovery) (not w.dispatches) failed (
        given-Has (Writes AfterDiscovery) m.mp_total (nothing-Writes AfterDiscovery _ refl refl)
          λ total. elim (Bool-cases (discovery_over d.queue d.active)) [
            | inl over ↦
                let done = discovery_over-true d.queue d.active over in
                rw over (
                  advance_to_scrape w d _
                    (record { backoff = b; discovered = omega arith; scraped = scraped }) done.0
                    (none_left total d.queue d.active done.0 done.1))
            | inr on ↦ rw on (
                keep_discovering w d _ phase
                  (record { backoff = b; discovered = omega arith; scraped = scraped }))
          ])
