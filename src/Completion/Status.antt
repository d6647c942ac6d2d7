-- ===== src/Completion/Status.antt =====
-- The verdict on a run.
use imperecta.Base.{
  ◌-◌, ◌=?◌, ◌≤◌, String, ◌≡◌, ◌↔◌, refl, Bool, true, false, not, ◌==◌, Option, List, [], ◌∷◌,
  arith, is_empty, length, all, if◌then◌else◌,
}
use imperecta.Completion.{is_given, count_completed, decide_parent_status}

abbrev is_completed : String → Bool
is_completed status = status == "completed"

abbrev any_completed : List String → Bool
any_completed statuses = not (all (λ status. not (status == "completed")) statuses)

count_completed-bound : (statuses : List String) → count_completed statuses ≤ length statuses
unfolding count_completed
count_completed-bound [] = omega arith
count_completed-bound (s ∷ statuses) = let rest = count_completed-bound statuses in ground arith

count_completed-all :
    (statuses : List String)
    → (count_completed statuses ≡ length statuses) ↔ (all is_completed statuses ≡ true)
unfolding count_completed
count_completed-all [] = (λ _. refl, λ _. refl)
count_completed-all (s ∷ statuses) =
    let (f, g) = count_completed-all statuses in
    let bound = count_completed-bound statuses in (λ h. ground arith, λ h. ground arith)

count_completed-none :
    (statuses : List String) → (count_completed statuses ≡ 0) ↔ (any_completed statuses ≡ false)
unfolding count_completed
count_completed-none [] = (λ _. refl, λ _. refl)
count_completed-none (s ∷ statuses) =
    let (f, g) = count_completed-none statuses in (λ h. ground arith, λ h. ground arith)

-- the verdict from the four tests: hard error, no marketplace, none not completed, none completed
verdict : Bool → Bool → Bool → Bool → String
verdict true b c d = "failed"
verdict false true c d = "failed"
verdict false false true d = "completed"
verdict false false false true = "failed"
verdict false false false false = "partial"

verdict_completed :
    (a b c d : Bool) → (verdict a b c d ≡ "completed") ↔ ((a ≡ false) × (b ≡ false) × (c ≡ true))
unfolding verdict
verdict_completed true b c d = (λ h. absurd (cc), λ (x, y, z). absurd (cc))
verdict_completed false true c d = (λ h. absurd (cc), λ (x, y, z). absurd (cc))
verdict_completed false false true d = (λ h. (refl, refl, refl), λ h. refl)
verdict_completed false false false true = (λ h. absurd (cc), λ (x, y, z). absurd (cc))
verdict_completed false false false false = (λ h. absurd (cc), λ (x, y, z). absurd (cc))

verdict_partial :
    (a b c d : Bool)
    → (verdict a b c d ≡ "partial") ↔ ((a ≡ false) × (b ≡ false) × (c ≡ false) × (d ≡ false))
unfolding verdict
verdict_partial true b c d = (λ h. absurd (cc), λ (x, y, z, w). absurd (cc))
verdict_partial false true c d = (λ h. absurd (cc), λ (x, y, z, w). absurd (cc))
verdict_partial false false true d = (λ h. absurd (cc), λ (x, y, z, w). absurd (cc))
verdict_partial false false false true = (λ h. absurd (cc), λ (x, y, z, w). absurd (cc))
verdict_partial false false false false = (λ h. (refl, refl, refl, refl), λ h. refl)

verdict_if :
    (a b c d : Bool)
    → (if a
        then "failed"
        else if b
        then "failed"
        else if c
        then "completed"
        else if d
        then "failed"
        else "partial")
      ≡ verdict a b c d
unfolding verdict
verdict_if true b c d = refl
verdict_if false true c d = refl
verdict_if false false true d = refl
verdict_if false false false true = refl
verdict_if false false false false = refl

any-nonempty : (statuses : List String) → any_completed statuses ≡ true → is_empty statuses ≡ false
any-nonempty [] h = absurd (cc)
any-nonempty (s ∷ statuses) h = refl

module _ (statuses : List String) (hard_error : Option String) where
  abbrev none_open : Bool
  none_open = length statuses - count_completed statuses =? 0

  decide-verdict :
      decide_parent_status statuses hard_error
      ≡ verdict (is_given hard_error) (is_empty statuses) none_open (count_completed statuses =? 0)
  unfolding decide_parent_status verdict
  decide-verdict =
      verdict_if (is_given hard_error) (is_empty statuses) none_open (count_completed statuses =? 0)

  -- A run is completed exactly when there was no hard error, some marketplace was touched and every
  -- one completed.
  pub decide-completed_iff : (decide_parent_status statuses hard_error ≡ "completed") ↔ (
      (is_given hard_error ≡ false)
      × (is_empty statuses ≡ false)
      × (all (λ status. status == "completed") statuses ≡ true))
  decide-completed_iff =
      let (f, g) = count_completed-all statuses in
      let bound = count_completed-bound statuses in
      let (to, from) =
        verdict_completed (is_given hard_error) (is_empty statuses) none_open
          (count_completed statuses =? 0) in
      rw decide-verdict (
        λ h. let (a, b, c) = to h in (a, b, f (ground arith)),
        λ (a, b, c). let e = g c in from (a, b, ground arith),
      )

  -- A run is partial exactly when there was no hard error and some marketplace completed while
  -- another did not.
  pub decide-partial_iff : (decide_parent_status statuses hard_error ≡ "partial") ↔ (
      (is_given hard_error ≡ false)
      × (not (all (λ status. not (status == "completed")) statuses) ≡ true)
      × (all (λ status. status == "completed") statuses ≡ false))
  decide-partial_iff =
      let (f, g) = count_completed-all statuses in
      let (f', g') = count_completed-none statuses in
      let bound = count_completed-bound statuses in
      let (to, from) =
        verdict_partial (is_given hard_error) (is_empty statuses) none_open
          (count_completed statuses =? 0) in
      rw decide-verdict (
        λ h. let (a, b, c, d) = to h in (a, ground arith, ground arith),
        λ (a, b, c). from (a, any-nonempty statuses b, ground arith, ground arith),
      )
