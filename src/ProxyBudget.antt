-- ===== src/ProxyBudget.antt =====
-- The spend guard of the paid proxy in backend/app/modules/scraper/proxy_provider_limiter.py: the
-- billing cycle and the daily allowance. Costs are in hundredths of a request, as the code counts
-- them; `calendar.monthrange`, the caps that the settings give and the counters that Redis holds are
-- arguments. The theorems are in `Renewal` and `Spend`.

pub mod Renewal
pub mod Spend
use imperecta.Base.{
  ℕ, zero, suc, ◌+◌, ◌-◌, ◌*◌, ◌/◌, ltb, leb, ◌=?◌, Bool, true, false, not, ◌&&◌, ◌||◌, Option,
  none, some, List, [], ◌∷◌, if◌then◌else◌,
}

pub record Date : Type 0 where
  pub year : ℕ
  pub month : ℕ
  pub day : ℕ

-- `a < b` on dates
unfoldable pub date_lt : Date → Date → Bool
date_lt a b =
    ltb a.year b.year
    || (a.year =? b.year && (ltb a.month b.month || (a.month =? b.month && ltb a.day b.day)))

pub record Cycle : Type 0 where
  pub start : Date
  pub end : Date

unfoldable pub min : ℕ → ℕ → ℕ
min a b = if leb a b then a else b

module _ (month_length : ℕ → ℕ → ℕ) (renew_day : ℕ) where
  -- `_renewal`
  unfoldable pub renewal : ℕ → ℕ → Date
  renewal year month = record {
    year = year;
    month = month;
    day = min renew_day (month_length year month);
  }

  unfoldable pub next_renewal : Date → Date
  next_renewal today =
      if today.month =? 12 then renewal (today.year + 1) 1 else renewal today.year (today.month + 1)

  unfoldable pub previous_renewal : Date → Date
  previous_renewal today =
      if today.month =? 1 then renewal (today.year - 1) 12 else renewal today.year (today.month - 1)

  unfoldable pub billing_cycle : Date → Cycle
  billing_cycle today =
      let this_month = renewal today.year today.month in
      if not (date_lt today this_month)
      then record { start = this_month; end = next_renewal today }
      else record { start = previous_renewal today; end = this_month }

-- the two counters of a day: all requests, and their cost
pub record DayCount : Type 0 where
  pub requests : Option ℕ
  pub cost : Option ℕ

-- an entry of `per_day`
unfoldable pub day_cost : DayCount → ℕ
day_cost d = elim (d.cost) [ some c ↦ c | none ↦ elim (d.requests) [ some n ↦ 100 * n | none ↦ 0 ] ]

unfoldable pub total_cost : List DayCount → ℕ
total_cost [] = 0
total_cost (d ∷ days) = day_cost d + total_cost days

unfoldable pub over_allowance : Option ℕ → ℕ → Bool
over_allowance none today_used = false
over_allowance (some allowance) today_used = leb (100 * allowance) today_used

module _ (monthly_cap hard_daily : ℕ) where
  -- what is left of the cycle, spread over its days; 0 is no cap
  unfoldable pub cycle_allowance : ℕ → ℕ → Option ℕ
  cycle_allowance used_before_today days_left =
      if ltb 0 monthly_cap
      then some ((100 * monthly_cap - used_before_today) / (100 * days_left))
      else none

  unfoldable pub daily_allowance : ℕ → ℕ → Option ℕ
  daily_allowance used_before_today days_left =
      if ltb 0 hard_daily
      then elim (cycle_allowance used_before_today days_left) [
        | none ↦ some hard_daily
        | some allowance ↦ some (min allowance hard_daily)
      ]
      else cycle_allowance used_before_today days_left

  -- `budget_status_sync()["exhausted"]`
  unfoldable pub exhausted : ℕ → ℕ → ℕ → Bool
  exhausted used_before_today today_used days_left =
      (ltb 0 monthly_cap && leb (100 * monthly_cap) (used_before_today + today_used))
      || over_allowance (daily_allowance used_before_today days_left) today_used

  -- `daily_budget_exhausted_sync`, which lets fetches through when Redis fails (`none`)
  unfoldable pub daily_budget_exhausted : Option (List DayCount) → DayCount → ℕ → Bool
  daily_budget_exhausted earlier today days_left =
      if leb monthly_cap 0 && leb hard_daily 0 then false else elim earlier [
        | none ↦ false
        | some days ↦ exhausted (total_cost days) (day_cost today) days_left
      ]
