-- ===== src/Tick/Backoff.antt =====
-- The bounds of the backoff.
use imperecta.Base.{ℕ, ◌*◌, ◌≤◌, Bool, false, arith}
use imperecta.Tick.{next_backoff}

-- From a backoff between 5 and 60 seconds the next one is between 5 and 60 seconds as well; after an
-- idle tick it is no shorter, and at most twice as long.
pub next_backoff-bounds :
    (current : ℕ) (dispatched : Bool)
    → 5 ≤ current
    → current ≤ 60
    → (5 ≤ next_backoff current dispatched)
      × (next_backoff current dispatched ≤ 60)
      × (current ≤ next_backoff current false)
      × (next_backoff current false ≤ current * 2)
unfolding next_backoff
next_backoff-bounds current dispatched low high =
    (ground arith, ground arith, ground arith, ground arith)
