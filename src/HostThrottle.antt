-- ===== src/HostThrottle.antt =====
-- backend/app/modules/scraper/host_throttle.py: requests to one host are spaced. Times are in
-- milliseconds of the monotonic clock; `_host_of` and `normalize_host` are arguments, and so is
-- how late a request goes out. The lock of a host on an event loop makes its calls one sequence.
-- The theorems are in `Spacing`.
pub mod Spacing
use imperecta.Base.{
  ℕ, ◌+◌, ◌-◌, ltb, String, Bool, true, false, not, ◌&&◌, ◌==◌, Option, none, some, List, [], ◌∷◌,
  Dict, get, insert, or_else, if◌then◌else◌,
}

abbrev pub default_host_interval : ℕ
default_host_interval = 1000

-- `d.pop(k, None)`
unfoldable pub pop : Dict ℕ → String → Dict ℕ
pop [] k = []
pop ((j, v) ∷ d) k = let rest = pop d k in if j == k then rest else (j, v) ∷ rest

-- the interval is `none` when it is missing or no number
unfoldable pub set_host_interval :
    (host_of normalize_host : String → String) → Dict ℕ → Option String → Option ℕ → Dict ℕ
set_host_interval host_of normalize_host host_intervals none interval = host_intervals
set_host_interval host_of normalize_host host_intervals (some url) interval =
    let host = if host_of url == "" then normalize_host url else host_of url in
    let value = or_else interval 0 in
    if host == ""
    then host_intervals
    else if not (ltb 0 value)
    then pop host_intervals host
    else insert host_intervals host value

unfoldable pub interval_for : Dict ℕ → String → ℕ
interval_for host_intervals host = or_else (get host_intervals host) default_host_interval

-- `acquire(url)` on an event loop: when it holds the lock of its host and looks at the clock, and how
-- late after that its request goes out, a wait apart
pub record Call : Type 0 where
  pub loop : String
  pub url : String
  pub now : ℕ
  pub late : ℕ

-- a request that went out
pub record Sent : Type 0 where
  pub loop : String
  pub host : String
  pub interval : ℕ
  pub at : ℕ

-- `_host_intervals`, which all loops share, and for each loop and host the time of the last request
pub record State : Type 0 where
  pub host_intervals : Dict ℕ
  pub last : String → String → ℕ

-- a new entry starts with 0
abbrev pub nothing_sent : String → String → ℕ
nothing_sent loop host = 0

-- the time at which a call lets its request go
unfoldable pub granted : ℕ → ℕ → Call → ℕ
granted last interval call =
    if ltb 0 (last + interval - call.now)
    then call.now + (last + interval - call.now) + call.late
    else call.now + call.late

-- `entry[1] = time.monotonic()`
abbrev pub with_last : State → Sent → State
with_last s sent = record s {
  last = λ loop host. if loop == sent.loop && host == sent.host then sent.at else s.last loop host;
}

-- an interval is registered, or a call gets through
pub data Event : Type 0 where
  configure : Option String → Option ℕ → Event
  acquire : Call → Event

unfoldable pub sent_by : State → String → Call → Sent
sent_by s host call = record {
  loop = call.loop;
  host = host;
  interval = interval_for s.host_intervals host;
  at = granted (s.last call.loop host) (interval_for s.host_intervals host) call;
}

module _ (host_of normalize_host : String → String) where
  -- the events of a process in the order in which the intervals are written and the locks taken; a
  -- URL without a host is not throttled
  unfoldable pub run_events : State → List Event → List Sent
  run_events s [] = []
  run_events s (configure url interval ∷ events) =
      run_events
        (record s {
          host_intervals = set_host_interval host_of normalize_host s.host_intervals url interval;
        })
        events
  run_events s (acquire call ∷ events) =
      let sent = sent_by s (host_of call.url) call in
      let throttled = run_events (with_last s sent) events in
      let unthrottled = run_events s events in
      if host_of call.url == "" then unthrottled else sent ∷ throttled
