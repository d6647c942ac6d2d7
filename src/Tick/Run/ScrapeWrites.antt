-- ===== src/Tick/Run/ScrapeWrites.antt =====
-- What a tick writes to the metadata in the scrape phase.
use imperecta.Base.{
  if-Has, ℕ, ◌≤◌, String, ◌≡◌, refl, inl, inr, Bool, true, not, Bool-cases, some, List, [], ◌∷◌,
  length, arith,
}
use imperecta.Tick.{Dispatch, ScrapeQueue, scrape_loop, scrape_over}
use imperecta.Tick.Cohorts.{drained_bound}
use imperecta.Tick.Branches.{given-Has}
use imperecta.Tick.Row.{TickMetadata, Answers, raises}
use imperecta.Tick.Run.{
  keep_ticking, advance, start_scrape, all_codes, dispatch_scrapes, scrape_phase_on, scrape_phase,
}
use imperecta.Tick.Run.Writes.{
  Writes, IsScraping, AfterScrape, nothing-Writes, touch-Writes, paced-HasBackoff,
}

keep_scraping :
    (w : Answers) (d : Dispatch) (m : TickMetadata)
    → IsScraping m
    → Writes AfterScrape (keep_ticking w "scrape" d m)
unfolding keep_ticking
keep_scraping w d m s = touch-Writes AfterScrape w "scrape" d.sent _ _ _ (
    inl (record {
      phase_is = s.phase_is;
      counted = record {
        backoff = paced-HasBackoff m d.dispatched "scrape" s.counted.backoff;
        discovered = s.counted.discovered;
        scraped = s.counted.scraped;
      };
      queue_empty = s.queue_empty;
      all_discovered = s.all_discovered;
    }))

advance_to_complete :
    (w : Answers) (d : Dispatch) (m : TickMetadata)
    → IsScraping m
    → m.scrape_queue ≡ some []
    → m.scrape_marketplace_done ≡ m.scrape_marketplace_total
    → Writes AfterScrape (advance w "scrape" "complete" "persist" d m)
unfolding advance
advance_to_complete w d m s queue done = touch-Writes AfterScrape w "scrape" d.sent _ 5 _ (
    inr (record {
      phase_is = refl;
      counted = record {
        backoff = (omega arith, omega arith);
        discovered = s.counted.discovered;
        scraped = s.counted.scraped;
      };
      queue_empty = s.queue_empty;
      all_discovered = s.all_discovered;
      scrape_queue_empty = queue;
      all_scraped = done;
    }))

scrape_over-true :
    (queue : List String) (active drained : ℕ) (codes : List String)
    → drained ≤ length codes
    → scrape_over queue active drained codes ≡ true
    → (some queue ≡ some []) × (drained ≡ length codes)
unfolding scrape_over
scrape_over-true [] active drained codes bound h = (refl, ground arith)
scrape_over-true (code ∷ queue) active drained codes bound h = absurd (cc)

dispatch_scrapes-Writes :
    (w : Answers) (m : TickMetadata) (built : ScrapeQueue) (active : ℕ) (dispatched : Bool)
    → IsScraping m
    → built.drained ≤ length (all_codes m)
    → Writes AfterScrape (dispatch_scrapes w m built active dispatched)
unfolding dispatch_scrapes
dispatch_scrapes-Writes w m built active dispatched s bound =
    let d =
      scrape_loop w.parse_last_dispatched_at w.now w.cohort_remainder w.create_pending_scrape_child
        (length built.eligible) built.eligible active dispatched m.scrape_last_dispatched_at in
    let scraping : IsScraping (record m {
      scrape_queue = some d.queue;
      scrape_last_dispatched_at = d.last_dispatched;
      scrape_marketplace_total = length (all_codes m);
      scrape_marketplace_done = built.drained;
    }) =
      record {
        phase_is = s.phase_is;
        counted = record {
          backoff = s.counted.backoff;
          discovered = s.counted.discovered;
          scraped = bound;
        };
        queue_empty = s.queue_empty;
        all_discovered = s.all_discovered;
      } in
    if-Has (Writes AfterScrape) (not w.dispatches) (nothing-Writes AfterScrape _ refl refl)
      (elim (Bool-cases (scrape_over d.queue d.active built.drained (all_codes m))) [
        | inl over ↦
            let done = scrape_over-true d.queue d.active built.drained (all_codes m) bound over in
            rw over (advance_to_complete w d _ scraping done.0 done.1)
        | inr on ↦ rw on (keep_scraping w d _ scraping)
      ])

scrape_phase_on-Writes :
    (w : Answers) (dispatched : Bool) (m : TickMetadata)
    → IsScraping m
    → Writes AfterScrape (scrape_phase_on w dispatched m)
unfolding scrape_phase_on
scrape_phase_on-Writes w dispatched m s =
    let failed = nothing-Writes AfterScrape (raises (some "scrape")) refl refl in
    if-Has (Writes AfterScrape) (not w.reap_stale_scrape_children) failed (
      given-Has (Writes AfterScrape) w.reconcile_pending_scrape_children failed λ reapplied.
        given-Has (Writes AfterScrape) w.count_active_scrape_children failed λ active.
          given-Has (Writes AfterScrape) w.active_scrape_codes failed λ active_codes.
            dispatch_scrapes-Writes w m _ active _ s
              (drained_bound w.cohort_remainder active_codes (all_codes m)))

pub scrape_phase-Writes :
    (w : Answers) (dispatched : Bool) (m : TickMetadata)
    → IsScraping m
    → Writes AfterScrape (scrape_phase w dispatched m)
unfolding scrape_phase start_scrape
scrape_phase-Writes w dispatched m s =
    given-Has (Writes AfterScrape) m.scrape_queue
      (given-Has (Writes AfterScrape) w.active_codes
        (nothing-Writes AfterScrape (raises (some "scrape")) refl refl)
        λ codes. scrape_phase_on-Writes w dispatched (start_scrape codes w.now m) (record {
          phase_is = s.phase_is;
          counted = record {
            backoff = s.counted.backoff;
            discovered = s.counted.discovered;
            scraped = s.counted.scraped;
          };
          queue_empty = s.queue_empty;
          all_discovered = s.all_discovered;
        }))
      λ queue. scrape_phase_on-Writes w dispatched m s
