-- ===== src/Tick/Run/Progress.antt =====
-- The life of a run: what its ticks, and changes of its status elsewhere, keep of its metadata.
use imperecta.Base.{if-Has, ◌≤◌, ◌≡◌, refl, not, none, some}
use imperecta.Tick.Branches.{given-Has}
use imperecta.Tick.Row.{TickMetadata, Answers, raises}
use imperecta.Tick.Run.{run_phase, count_and_run}
use imperecta.Tick.Run.Schedule.{HasBackoff}
use imperecta.Tick.Run.Writes.{
  Writes, IsCounted, IsDiscovering, IsScraping, IsCompleting, AfterDiscovery, AfterScrape,
  discovery_phase-Writes, nothing-Writes,
}
use imperecta.Tick.Run.ScrapeWrites.{scrape_phase-Writes}

-- before the first tick
pub record IsFresh (m : TickMetadata) : Type 0 where
  pub phase_is : m.phase ≡ none
  pub counted : IsCounted m

-- before the first tick, or in one of the three phases
pub data IsConsistent (m : TickMetadata) : Type 0 where
  fresh : IsFresh m → IsConsistent m
  discovering : IsDiscovering m → IsConsistent m
  scraping : IsScraping m → IsConsistent m
  completing : IsCompleting m → IsConsistent m

pub count_discovery-Writes :
    (w : Answers) (m : TickMetadata)
    → m.phase ≡ some "discovery"
    → HasBackoff m
    → m.scrape_marketplace_done ≤ m.scrape_marketplace_total
    → Writes AfterDiscovery (count_and_run w "discovery" m)
unfolding count_and_run run_phase
count_discovery-Writes w m phase b scraped =
    let failed = nothing-Writes AfterDiscovery (raises (some "discovery")) refl refl in
    if-Has (Writes AfterDiscovery) (not w.reap_stale_children) failed (
      given-Has (Writes AfterDiscovery) w.reconcile_pending_children failed
        λ reapplied. discovery_phase-Writes w _ _ phase b scraped)

pub count_scrape-Writes :
    (w : Answers) (m : TickMetadata)
    → IsScraping m
    → Writes AfterScrape (count_and_run w "scrape" m)
unfolding count_and_run run_phase
count_scrape-Writes w m s =
    let failed = nothing-Writes AfterScrape (raises (some "scrape")) refl refl in
    if-Has (Writes AfterScrape) (not w.reap_stale_children) failed (
      given-Has (Writes AfterScrape) w.reconcile_pending_children failed λ reapplied.
        scrape_phase-Writes w _ _ (record {
          phase_is = s.phase_is;
          counted = record {
            backoff = s.counted.backoff;
            discovered = s.counted.discovered;
            scraped = s.counted.scraped;
          };
          queue_empty = s.queue_empty;
          all_discovered = s.all_discovered;
        }))
