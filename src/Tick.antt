-- ===== src/Tick.antt =====
-- The dispatch of child jobs in backend/app/modules/scraper/pipeline/tick_orchestrator.py: the
-- backoff, the two dispatch loops of `run_tick` and the end of the scrape phase. What the database
-- answers (children created, cohort remainders, active codes) is an argument, and so is the reading
-- of a time stamp. A backoff is a whole number of seconds, as every value that the code stores. The
-- theorems are in `Backoff`, `Loops` and `Cohorts`.
pub mod Backoff
pub mod Loops
pub mod Cohorts
pub mod Row
mod Branches
pub mod Run
use imperecta.Base.{
  ℕ, ◌+◌, ◌*◌, zero, suc, ltb, leb, ◌=?◌, String, Bool, true, false, not, ◌&&◌, ◌||◌, ◌==◌, Option,
  none, some, List, [], ◌∷◌, elem, is_empty, length, Dict, get, insert, if◌then◌else◌,
}
use text.Mathlib.Text.{is_le}
use Prim.Native.String.{compare}

abbrev pub tick_min_seconds : ℕ
tick_min_seconds = 5

abbrev pub tick_max_seconds : ℕ
tick_max_seconds = 60

abbrev pub tick_backoff_factor : ℕ
tick_backoff_factor = 2

abbrev pub max_parallel_discovery : ℕ
max_parallel_discovery = 2

abbrev pub max_parallel_scrape : ℕ
max_parallel_scrape = 2

unfoldable pub next_backoff : ℕ → Bool → ℕ
next_backoff current dispatched =
    if dispatched
    then tick_min_seconds
    else if leb current 0
    then tick_min_seconds
    else if ltb (current * tick_backoff_factor) tick_max_seconds
    then current * tick_backoff_factor
    else tick_max_seconds

-- after a dispatch loop: the queue, the count of active children, the children sent to the broker in
-- order, the flag of progress, and (for scraping) the times of the last dispatch
pub record Dispatch : Type 0 where
  pub queue : List String
  pub active : ℕ
  pub sent : List String
  pub dispatched : Bool
  pub last_dispatched : Dict String

abbrev pub halt : List String → ℕ → Bool → Dict String → Dispatch
halt queue active dispatched last = record {
  queue = queue;
  active = active;
  sent = [];
  dispatched = dispatched;
  last_dispatched = last;
}

abbrev pub send : String → Dispatch → Dispatch
send child_id later = record later { sent = child_id ∷ later.sent }

module _ (create_child : String → Option String) where
  -- `while active < MAX_PARALLEL_DISCOVERY and queue`
  unfoldable pub discovery_loop : List String → ℕ → Bool → Dispatch
  discovery_loop [] active dispatched = halt [] active dispatched []
  discovery_loop (code ∷ queue) active dispatched = elim (ltb active max_parallel_discovery) [
    | false ↦ halt (code ∷ queue) active dispatched []
    | true ↦ elim (create_child code) [
      | none ↦ discovery_loop queue active dispatched
      | some child_id ↦ send child_id (discovery_loop queue (active + 1) true)
    ]
  ]

-- the queue for scraping: the codes that have listings left and no active child, and the count of
-- the codes that are drained
pub record ScrapeQueue : Type 0 where
  pub eligible : List String
  pub drained : ℕ

module _ (remainder : String → ℕ) (active_codes : List String) where
  unfoldable pub build_scrape_dispatch_queue : List String → ScrapeQueue
  build_scrape_dispatch_queue [] = record { eligible = []; drained = 0 }
  build_scrape_dispatch_queue (code ∷ all_codes) =
      let rest = build_scrape_dispatch_queue all_codes in
      if remainder code =? 0
      then record { eligible = rest.eligible; drained = suc rest.drained }
      else if elem code active_codes
      then rest
      else record { eligible = code ∷ rest.eligible; drained = rest.drained }

-- `parse_last_dispatched_at` as a parameter: a missing or bad time stamp is 0
module _ (instant : Option String → ℕ) (now : String) (remainder : String → ℕ)
    (create_child : String → Option String) where
  -- the order of the keys: oldest dispatch, then more listings left, then the code
  unfoldable pub before : Dict String → String → String → Bool
  before last a b =
      let ta = instant (get last a) in
      let tb = instant (get last b) in
      ltb ta tb
      || (ta =? tb
          && (ltb (remainder b) (remainder a)
              || (remainder a =? remainder b && is_le (compare a b) && not (a == b))))

  -- `min` keeps the first of equal elements
  unfoldable pub pick_next_scrape_marketplace : Dict String → String → List String → String
  pick_next_scrape_marketplace last best [] = best
  pick_next_scrape_marketplace last best (code ∷ eligible) =
      pick_next_scrape_marketplace last (if before last code best then code else best) eligible

  -- `queue.remove(code)`
  unfoldable pub remove : String → List String → List String
  remove code [] = []
  remove code (c ∷ queue) = let rest = remove code queue in if c == code then queue else c ∷ rest

  -- `while active < MAX_PARALLEL_SCRAPE and queue`, on fuel
  unfoldable pub scrape_loop : ℕ → List String → ℕ → Bool → Dict String → Dispatch
  scrape_loop zero queue active dispatched last = halt queue active dispatched last
  scrape_loop (suc fuel) [] active dispatched last = halt [] active dispatched last
  scrape_loop (suc fuel) (first ∷ others) active dispatched last =
      let code = pick_next_scrape_marketplace last first others in
      let queue = remove code (first ∷ others) in
      elim (ltb active max_parallel_scrape) [
        | false ↦ halt (first ∷ others) active dispatched last
        | true ↦ elim (create_child code) [
          | none ↦ scrape_loop fuel queue active dispatched last
          | some child_id ↦
              send child_id (scrape_loop fuel queue (active + 1) true (insert last code now))
        ]
      ]

-- the tests that end the two phases
unfoldable pub discovery_over : List String → ℕ → Bool
discovery_over queue active = is_empty queue && active =? 0

unfoldable pub scrape_over : List String → ℕ → ℕ → List String → Bool
scrape_over queue active drained_count all_codes =
    let cohorts_drained = length all_codes =? 0 || drained_count =? length all_codes in
    is_empty queue && active =? 0 && cohorts_drained
