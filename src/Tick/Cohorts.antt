-- ===== src/Tick/Cohorts.antt =====
-- The scrape phase ends only when no listing of its cohort is left.
use imperecta.Base.{
  ℕ, ◌≤◌, ◌=?◌, String, ◌≡◌, refl, true, not, ◌&&◌, List, [], ◌∷◌, arith, elem, length, eq_iff,
}
use imperecta.Tick.{build_scrape_dispatch_queue, scrape_over}

elem-length : (code : String) (codes : List String) → elem code codes ≡ true → 1 ≤ length codes
elem-length code [] h = absurd (cc)
elem-length code (c ∷ codes) h = omega arith

module _ (remainder : String → ℕ) (active_codes : List String) where
  pub drained_bound :
      (codes : List String)
      → (build_scrape_dispatch_queue remainder active_codes codes).drained ≤ length codes
  unfolding build_scrape_dispatch_queue
  drained_bound [] = omega arith
  drained_bound (code ∷ codes) = let rest = drained_bound codes in ground arith

  drained_all :
      (codes : List String) (code : String)
      → (build_scrape_dispatch_queue remainder active_codes codes).drained ≡ length codes
      → elem code codes ≡ true
      → remainder code ≡ 0
  unfolding build_scrape_dispatch_queue
  drained_all [] code h e = absurd (cc)
  drained_all (c ∷ codes) code h e =
      let bound = drained_bound codes in
      let same = eq_iff c code in let rest = drained_all codes code in ground arith

  -- When the scrape phase ends, whatever the queue and the active children were counted as, no
  -- marketplace of the run has a listing of the cohort left.
  pub scrape_over-drained :
      (codes : List String) (queue : List String) (active : ℕ) (code : String)
      → scrape_over queue active
          (build_scrape_dispatch_queue remainder active_codes codes).drained
          codes
        ≡ true
      → elem code codes ≡ true
      → remainder code ≡ 0
  unfolding scrape_over
  scrape_over-drained codes queue active code over known =
      let some_code = elem-length code codes known in
      let all = drained_all codes code in ground arith

  -- A code is queued for scraping exactly when it is a code of the run with listings left and
  -- without an active child.
  pub eligible_iff :
      (codes : List String) (code : String)
      → elem code (build_scrape_dispatch_queue remainder active_codes codes).eligible
        ≡ (elem code codes && not (remainder code =? 0) && not (elem code active_codes))
  unfolding build_scrape_dispatch_queue
  eligible_iff [] code = refl
  eligible_iff (c ∷ codes) code =
      let rest = eligible_iff codes code in let same = eq_iff c code in ground arith
