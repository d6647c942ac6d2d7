-- ===== src/ProxyBudget/Spend.antt =====
-- What the guard keeps of the budget.
use imperecta.Base.{
  ℕ, ◌+◌, ◌-◌, ◌*◌, ◌/◌, ◌≤◌, ◌<◌, ltb, ◌≡◌, ◌⊎◌, refl, sym, ◌∙◌, some-injective, true, false, some,
  Bool-cases, inl, inr, arith,
}
use native.Mathlib.Nat.{div-mul-le_self, mul-le-mul_right, le_trans}
use imperecta.Base.{suc, List}
use imperecta.ProxyBudget.{
  DayCount, day_cost, total_cost, daily_budget_exhausted, min, cycle_allowance, daily_allowance,
}

module _ (monthly_cap hard_daily : ℕ) where
  -- A cycle: what was counted before today and today, the days left, today included, the fetches
  -- that passed the guard and are not counted yet, and the passes given while Redis failed.
  pub record Usage : Type 0 where
    pub before : ℕ
    pub today : ℕ
    pub days_left : ℕ
    pub in_flight : ℕ
    pub blind : ℕ

  abbrev pub fresh_usage : ℕ → Usage
  fresh_usage days_left = record {
    before = 0;
    today = 0;
    days_left = days_left;
    in_flight = 0;
    blind = 0;
  }

  -- Steps of the workers of a fleet, in any order: a worker that is free asks the guard, which reads
  -- the counters or lets it through when Redis fails; a fetch that passed is counted, or it is not,
  -- as when its token or its count fails; a day ends.
  pub data Reach (workers max_cost : ℕ) : Usage → Type 0 where
    fresh : (days_left : ℕ) → Reach workers max_cost (fresh_usage days_left)
    pass :
        {u : Usage}
        → Reach workers max_cost u
        → (days : List DayCount) → (today : DayCount) → total_cost days ≡ u.before
        → day_cost today ≡ u.today
        → daily_budget_exhausted monthly_cap hard_daily (some days) today u.days_left ≡ false
        → u.in_flight < workers
        → Reach workers max_cost (record u { in_flight = suc u.in_flight })
    pass_blind :
        {u : Usage}
        → Reach workers max_cost u
        → Reach workers max_cost (record u { in_flight = suc u.in_flight; blind = suc u.blind })
    count :
        {u : Usage} {waiting : ℕ}
        → Reach workers max_cost u
        → u.in_flight ≡ suc waiting
        → (cost : ℕ) → cost ≤ max_cost
        → Reach workers max_cost (record u { today = u.today + cost; in_flight = waiting })
    next_day :
        {u : Usage}
        → Reach workers max_cost u
        → Reach workers max_cost
            (record u { before = u.before + u.today; today = 0; days_left = u.days_left - 1 })

  -- the counted and what may still be counted
  abbrev exposure : ℕ → Usage → ℕ
  exposure max_cost u = u.before + u.today + u.in_flight * max_cost

  cycle_share :
      (before days_left : ℕ)
      → (100 * monthly_cap - before) / (100 * days_left) * (100 * days_left)
        ≤ 100 * monthly_cap - before
  cycle_share before days_left = div-mul-le_self (100 * monthly_cap - before) (100 * days_left)

  min_left : (a b : ℕ) → (min a b ≤ a) × (min a b ≤ b)
  unfolding min
  min_left a b = (ground arith, ground arith)

  smaller_product : (a b n m : ℕ) → a ≤ b → b * n ≤ m → a * n ≤ m
  smaller_product a b n m h k = le_trans (mul-le-mul_right n h) k

  none_left : (n : ℕ) → ltb 0 n ≡ false → n ≡ 0
  none_left n h = ground arith

  -- The allowance of a day, spent on each day that is left of the cycle, is no more than what is
  -- left of the monthly cap, and no more than the cap of a day when there is one.
  pub daily_allowance_paces :
      (before days_left allowance : ℕ)
      → 0 < monthly_cap
      → 0 < days_left
      → daily_allowance monthly_cap hard_daily before days_left ≡ some allowance
      → (allowance * (100 * days_left) ≤ 100 * monthly_cap - before)
        × ((hard_daily ≡ 0) ⊎ (allowance ≤ hard_daily))
  unfolding daily_allowance cycle_allowance
  daily_allowance_paces before days_left allowance c days e =
      let share = (100 * monthly_cap - before) / (100 * days_left) in
      let whole = cycle_share before days_left in
      let both = min_left share hard_daily in
      let positive : ltb 0 monthly_cap ≡ true = ground arith in
      elim (Bool-cases (ltb 0 hard_daily)) [
        | inl h ↦
            let same : min share hard_daily ≡ allowance =
              some-injective (sym (rw (positive, h, daily_allowance, cycle_allowance) refl) ∙ e) in
            rw⁻¹ same (
              smaller_product (min share hard_daily) share (100 * days_left) _ both.0 whole,
              inr both.1,
            )
        | inr h ↦
            let same : share ≡ allowance =
              some-injective (sym (rw (positive, h, daily_allowance, cycle_allowance) refl) ∙ e) in
            rw⁻¹ same (whole, inl (none_left hard_daily h))
      ]
