-- ===== src/Examples/Ticks.antt =====
-- Calls of the dispatch of child jobs.
use imperecta.Base.{
  ℕ, String, ◌≡◌, refl, true, false, ◌==◌, Option, none, some, List, [], ◌∷◌, arith, if◌then◌else◌,
}
use imperecta.Tick.{
  discovery_loop, remove, before, pick_next_scrape_marketplace, scrape_loop,
  build_scrape_dispatch_queue, scrape_over,
}
use imperecta.Tick.Loops.{IsFilled, discovery_loop-IsFilled, scrape_loop-IsFilled}

-- the marketplace `gone` was deactivated
abbrev create : String → Option String
create code = if code == "gone" then none else some code

abbrev codes : List String
codes = "gone" ∷ "a" ∷ "b" ∷ "c" ∷ []

abbrev listings : String → ℕ
listings code = if code == "b" then 0 else 7

abbrev instant : Option String → ℕ
instant none = 0
instant (some text) = 1

discovery_loop-IsFilled_example : IsFilled 1 (discovery_loop create codes 1 false)
discovery_loop-IsFilled_example = discovery_loop-IsFilled create codes 1 false (omega arith)

scrape_loop-IsFilled_example :
    IsFilled 0 (scrape_loop instant "now" listings create 4 codes 0 false [])
scrape_loop-IsFilled_example =
    scrape_loop-IsFilled instant "now" listings create 4 codes 0 false [] (omega arith)
      (omega arith)

-- two children go out, and the fourth marketplace waits
scrape_loop_test :
    (scrape_loop instant "now" listings create 4 codes 0 false []).sent ≡ "a" ∷ "c" ∷ []
unfolding scrape_loop pick_next_scrape_marketplace before remove
scrape_loop_test = refl

over :
    scrape_over [] 0 (build_scrape_dispatch_queue listings [] ("b" ∷ [])).drained ("b" ∷ []) ≡ true
unfolding scrape_over build_scrape_dispatch_queue
over = refl
