-- ===== src/HostThrottle/Spacing.antt =====
-- The spacing of the requests to a host.
use imperecta.Base.{
  ℕ, ◌+◌, ◌≤◌, ltb, String, ◌≡◌, refl, ap, ◌∙◌, Bool-cases, inl, inr, Bool, true, false, not, ◌==◌,
  eq_iff, Option, none, some, List, [], ◌∷◌, Dict, get, insert, get-insert, or_else, if◌then◌else◌,
  arith, All,
}
use imperecta.HostThrottle.{Sent, pop, interval_for, set_host_interval}

-- a later request of the same loop to the same host keeps its interval after a time
abbrev pub KeepsAfter : String → String → ℕ → Sent → Type 0
KeepsAfter loop host time later =
    later.loop ≡ loop → later.host ≡ host → time + later.interval ≤ later.at

-- each two requests of one loop to one host are the interval of the later one apart
abbrev pub IsSpaced : List Sent → Type 0
IsSpaced [] = Unit
IsSpaced (sent ∷ later) = All (KeepsAfter sent.loop sent.host sent.at) later × IsSpaced later

get-pop : (d : Dict ℕ) (k j : String) → get (pop d k) j ≡ (if k == j then none else get d j)
unfolding pop
get-pop [] k j = ground arith
get-pop ((i, v) ∷ d) k j = ground (arith, eq_iff k j, eq_iff i k, eq_iff i j, get-pop d k j)

either :
    (b : Bool) (o p : Option ℕ)
    → or_else (if b then o else p) 1000 ≡ (if b then or_else o 1000 else or_else p 1000)
either true o p = refl
either false o p = refl

registered :
    (d : Dict ℕ) (k host : String) (value : ℕ)
    → or_else (get (if not (ltb 0 value) then pop d k else insert d k value) host) 1000
      ≡ (if k == host then (if ltb 0 value then value else 1000) else or_else (get d host) 1000)
registered d k host value = elim (Bool-cases (ltb 0 value)) [
  | inl e ↦ rw e (ap (λ o. or_else o 1000) (get-insert d k host value) ∙ either (k == host) _ _)
  | inr e ↦ rw e (ap (λ o. or_else o 1000) (get-pop d k host) ∙ either (k == host) _ _)
]

-- A host has the interval that was registered for it when that is positive, and else the default of
-- one second; the intervals of the other hosts stay.
pub interval_for-set :
    (host_of normalize_host : String → String) (d : Dict ℕ) (url : String) (interval : Option ℕ)
    (host : String)
    → host_of url == "" ≡ false
    → interval_for (set_host_interval host_of normalize_host d (some url) interval) host ≡ (
        if host_of url == host
        then (if ltb 0 (or_else interval 0) then or_else interval 0 else 1000)
        else interval_for d host)
unfolding interval_for set_host_interval
interval_for-set host_of normalize_host d url interval host named =
    rw named (rw named (registered d (host_of url) host (or_else interval 0)))
