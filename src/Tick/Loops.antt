-- ===== src/Tick/Loops.antt =====
-- What the dispatch loops do to the queue and to the count of active children.
use imperecta.Base.{
  ℕ, ◌+◌, ◌≤◌, zero, suc, ltb, ltb→lt, String, ◌≡◌, ◌⊎◌, refl, inl, inr, Bool, true, false,
  Bool-cases, Option-cases, Option, List, [], ◌∷◌, arith, elem, length, Dict, eq_iff, insert,
  if◌then◌else◌,
}
use imperecta.Tick.{
  Dispatch, discovery_loop, scrape_loop, remove, pick_next_scrape_marketplace, before, halt, send,
}

-- After a loop: every child sent counts as active, no more than two are, and the loop stopped only
-- because the queue was empty or two children were active.
pub record IsFilled (active : ℕ) (d : Dispatch) : Type 0 where
  pub counted : d.active ≡ active + length d.sent
  pub bounded : d.active ≤ 2
  pub filled : (d.queue ≡ []) ⊎ (2 ≤ d.active)

halt-IsFilled :
    (queue : List String) (active : ℕ) (dispatched : Bool) (last : Dict String)
    → active ≤ 2
    → (queue ≡ []) ⊎ (2 ≤ active)
    → IsFilled active (halt queue active dispatched last)
halt-IsFilled queue active dispatched last bound done = record {
  counted = omega arith;
  bounded = bound;
  filled = done;
}

send-IsFilled :
    (child_id : String) (active : ℕ) (d : Dispatch)
    → IsFilled (active + 1) d
    → IsFilled active (send child_id d)
send-IsFilled child_id active d p =
    let counted = p.counted in
    record { counted = omega arith; bounded = p.bounded; filled = p.filled }

module _ (create_child : String → Option String) where
  -- From at most two active children, the discovery loop sends children until two are active or the
  -- queue is empty, and counts each one that it sends.
  pub discovery_loop-IsFilled :
      (queue : List String) (active : ℕ) (dispatched : Bool)
      → active ≤ 2
      → IsFilled active (discovery_loop create_child queue active dispatched)
  unfolding discovery_loop
  discovery_loop-IsFilled [] active dispatched bound =
      halt-IsFilled [] active dispatched [] bound (inl refl)
  discovery_loop-IsFilled (code ∷ queue) active dispatched bound =
      elim (Bool-cases (ltb active 2)) [
        | inr e ↦
            rw (e, discovery_loop)
              (halt-IsFilled (code ∷ queue) active dispatched [] bound (inr (ground arith)))
        | inl e ↦ elim (Option-cases (create_child code)) [
          | inl skipped ↦
              rw (e, skipped, discovery_loop)
                (discovery_loop-IsFilled queue active dispatched bound)
          | inr (child_id, made) ↦
              rw (e, made, discovery_loop)
                (send-IsFilled child_id active _ (
                  discovery_loop-IsFilled queue (active + 1) true
                    (let h = ltb→lt active 2 e in omega arith)))
        ]
      ]

elem-either :
    (b : Bool) (x y p : String) (queue : List String)
    → elem p ((if b then x else y) ∷ queue) ≡ true
    → elem p (y ∷ x ∷ queue) ≡ true
elem-either true x y p queue h = ground arith
elem-either false x y p queue h = ground arith

module _ (instant : Option String → ℕ) (now : String) (remainder : String → ℕ)
    (create_child : String → Option String) where
  abbrev picked : Dict String → String → List String → String
  picked = pick_next_scrape_marketplace instant now remainder create_child

  abbrev removed : String → List String → List String
  removed = remove instant now remainder create_child

  picked-elem :
      (last : Dict String) (best : String) (queue : List String)
      → elem (picked last best queue) (best ∷ queue) ≡ true
  unfolding pick_next_scrape_marketplace
  picked-elem last best [] = let e = eq_iff best best in ground arith
  picked-elem last best (code ∷ queue) =
      elem-either (before instant now remainder create_child last code best) code best _ queue (
        picked-elem last
          (if before instant now remainder create_child last code best then code else best) queue)

  length-removed :
      (code : String) (queue : List String)
      → elem code queue ≡ true
      → suc (length (removed code queue)) ≡ length queue
  unfolding remove
  length-removed code [] h = absurd (cc)
  length-removed code (c ∷ queue) h = let rest = length-removed code queue in ground arith

  -- With fuel for every code of the queue, and from at most two active children, the scrape loop
  -- sends children until two are active or the queue is empty, and counts each one that it sends.
  pub scrape_loop-IsFilled :
      (fuel : ℕ) (queue : List String) (active : ℕ) (dispatched : Bool) (last : Dict String)
      → length queue ≤ fuel
      → active ≤ 2
      → IsFilled active
          (scrape_loop instant now remainder create_child fuel queue active dispatched last)
  unfolding scrape_loop
  scrape_loop-IsFilled zero [] active dispatched last enough bound =
      halt-IsFilled [] active dispatched last bound (inl refl)
  scrape_loop-IsFilled zero (code ∷ queue) active dispatched last enough bound =
      absurd (omega arith)
  scrape_loop-IsFilled (suc fuel) [] active dispatched last enough bound =
      halt-IsFilled [] active dispatched last bound (inl refl)
  scrape_loop-IsFilled (suc fuel) (first ∷ others) active dispatched last enough bound =
      let code = picked last first others in
      let shorter = length-removed code (first ∷ others) (picked-elem last first others) in
      elim (Bool-cases (ltb active 2)) [
        | inr e ↦
            rw (e, scrape_loop)
              (halt-IsFilled (first ∷ others) active dispatched last bound (inr (ground arith)))
        | inl e ↦
            let room = ltb→lt active 2 e in
            elim (Option-cases (create_child code)) [
              | inl skipped ↦
                  rw (e, skipped, scrape_loop)
                    (scrape_loop-IsFilled fuel (removed code (first ∷ others)) active dispatched
                      last (omega arith) bound)
              | inr (child_id, made) ↦
                  rw (e, made, scrape_loop)
                    (send-IsFilled child_id active _ (
                      scrape_loop-IsFilled fuel (removed code (first ∷ others)) (active + 1) true
                        (insert last code now) (omega arith) (omega arith)))
            ]
      ]
