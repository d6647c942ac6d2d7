-- ===== src/ProxyBudget/Renewal.antt =====
-- The billing cycle holds the day, and the cycles follow each other.
use imperecta.Base.{if-Has, ℕ, ◌+◌, ◌=?◌, ◌≡◌, refl, false, Bool-cases, inl, inr, arith}
use imperecta.ProxyBudget.{Date, date_lt, renewal, next_renewal, billing_cycle}

date_lt_irrefl : (a : Date) → date_lt a a ≡ false
unfolding date_lt
date_lt_irrefl a = ground arith

module _ (month_length : ℕ → ℕ → ℕ) (renew_day : ℕ) where
  starts_at_renewal :
      (year month : ℕ)
      → (billing_cycle month_length renew_day (renewal month_length renew_day year month)).start
        ≡ renewal month_length renew_day year month
  unfolding billing_cycle renewal
  starts_at_renewal year month =
      rw (date_lt_irrefl (renewal month_length renew_day year month)) refl

  -- what a day of renewal starts is a cycle of its own
  abbrev StartsAt : Date → Type 0
  StartsAt d = (billing_cycle month_length renew_day d).start ≡ d

  next-StartsAt : (today : Date) → StartsAt (next_renewal month_length renew_day today)
  unfolding next_renewal
  next-StartsAt today =
      if-Has StartsAt (today.month =? 12) (starts_at_renewal (today.year + 1) 1)
        (starts_at_renewal today.year (today.month + 1))

  end-StartsAt : (today : Date) → StartsAt (billing_cycle month_length renew_day today).end
  unfolding billing_cycle
  end-StartsAt today =
      elim (Bool-cases (date_lt today (renewal month_length renew_day today.year today.month))) [
        | inl e ↦ rw e (starts_at_renewal today.year today.month)
        | inr e ↦ rw e (next-StartsAt today)
      ]

  -- The day on which a cycle ends is the start of the next one.
  pub billing_cycle_follows :
      (today : Date)
      → (billing_cycle month_length renew_day
          (billing_cycle month_length renew_day today).end).start
        ≡ (billing_cycle month_length renew_day today).end
  billing_cycle_follows today = end-StartsAt today
