-- ===== src/Examples/Guards.antt =====
-- Calls of the spend guard, of the throttle and of the alert engine, and of the retention door.
use imperecta.Base.{ltb}
use imperecta.Alerts.Firing.{newer}
use imperecta.Firewall.{reject}
use imperecta.Base.{
  Returns, Bool, Dict, get, ℕ, ◌+◌, ◌-◌, ℤ, pos, negsuc, String, ◌≡◌, ◌⊎◌, refl, true, false, not,
  ◌&&◌, ◌||◌, ◌==◌, Option, none, some, List, [], ◌∷◌, arith,
}
use imperecta.Payload.{Value, str}
use imperecta.Firewall.Decided.{IsRejected}
use imperecta.Retention.{
  refuse_retention, authorize_configured, retention_tables, authorize_retention_delete,
  authorize_table,
}
use imperecta.Retention.Passes.{IsPurge, authorize_retention_delete-Sound, authorize_table_passes}
use imperecta.Examples.{gate}
use imperecta.Examples.Scrapes.{usable}
use imperecta.ProxyBudget.{
  cycle_allowance, previous_renewal, min, renewal, Date, date_lt, billing_cycle, daily_allowance,
}
use imperecta.ProxyBudget.{DayCount}
use imperecta.ProxyBudget.Spend.{Usage, fresh_usage}
use imperecta.HostThrottle.{
  granted, Call, Event, State, configure, acquire, run_events, sent_by, nothing_sent, interval_for,
  set_host_interval,
}
use imperecta.Base.{map}
use imperecta.Alerts.{
  deliver, persist_firing, decide_change, decide_price_trigger, in_cooldown, evaluate_row, Rule,
  PriceRow, Row, triggered, decide_rule, decide_price_rule, price_watermark, le_int, negate,
  evaluate_alert_rules,
}
use imperecta.Alerts.Firing.{triggered-fires_once, decide_price_rule-fires}

abbrev month_length : ℕ → ℕ → ℕ
month_length year month = 30

abbrev new_year : Date
new_year = record { year = 2026; month = 1; day = 3 }

-- the cycle began in December
cycle_test :
    (billing_cycle month_length 16 new_year).start ≡ record { year = 2025; month = 12; day = 16 }
unfolding billing_cycle date_lt renewal min previous_renewal
cycle_test = refl

abbrev day_cap : ℕ
day_cap = 40

-- 3000 requests over 30 days are 100 a day, and the cap of a day is 40
allowance_test : daily_allowance 3000 day_cap 0 30 ≡ some 40
unfolding daily_allowance cycle_allowance min
allowance_test = refl

abbrev idle : DayCount
idle = record { requests = none; cost = none }

abbrev asked : Usage 3000 0
asked = record (fresh_usage 3000 0 30) { in_flight = 1 }

abbrev second_day : Usage 3000 0
second_day = record {
  before = 0 + (0 + 100);
  today = 0;
  days_left = 30 - 1;
  in_flight = 1;
  blind = 1;
}

abbrev same_text : String → String
same_text text = text

abbrev on_loop : String → ℕ → ℕ → Call
on_loop loop now late = record { loop = loop; url = "a.example"; now = now; late = late }

-- the interval of the host changes between the second and the third request
abbrev events : List Event
events =
    acquire (on_loop "l1" 5000 0)
    ∷ acquire (on_loop "l1" 5010 3)
    ∷ configure (some "a.example") (some 2000)
    ∷ acquire (on_loop "l2" 5020 0)
    ∷ acquire (on_loop "l1" 6100 0)
    ∷ []

abbrev started : State
started = record { host_intervals = []; last = nothing_sent }

-- on its own loop a request does not wait for the others
run_events_test :
    map (λ sent. sent.at) (run_events same_text same_text started events)
    ≡ 5000 ∷ 6003 ∷ 5020 ∷ 8003 ∷ []
unfolding run_events sent_by granted interval_for set_host_interval
run_events_test = refl

abbrev rule : Rule
rule = record {
  id = "r1";
  alert_type = "price_drop";
  threshold_pct = some (pos 10);
  channels = "in_app" ∷ "email" ∷ [];
  created_at = 100;
  last_triggered_at = none;
  cooldown_minutes = 60;
  trigger_count = 0;
}

abbrev price : PriceRow
price = record { id = 1; scraped_at = 500; price = 80; price_change_pct = some (negsuc 19) }

abbrev no_price : ℕ → ℤ → Option ℕ
no_price new_price pct = none

abbrev brief : PriceRow → ℤ → Option ℕ → String
brief row pct old_price = "dropped"

triggered-fires_once_example :
    (decide_rule no_price brief "Kettle" true true (some price) (triggered 600 rule)).fire ≡ false
triggered-fires_once_example =
    triggered-fires_once no_price brief rule 600 "Kettle" true price (omega arith)

decide_price_rule-fires_example : (decide_price_rule no_price brief rule (some price)).fire ≡ (
    ltb rule.created_at price.scraped_at
    && newer no_price brief rule.last_triggered_at price.scraped_at
    && (not (rule.alert_type == "price_drop") || le_int (negsuc 19) (negate (pos 10)))
    && (not (rule.alert_type == "price_rise") || le_int (pos 10) (negsuc 19)))
decide_price_rule-fires_example =
    decide_price_rule-fires no_price brief rule price (pos 10) (negsuc 19) refl refl

abbrev rows : List Row
rows =
    record {
      rule = rule;
      product_title = "Kettle";
      listing_is_active = true;
      previous_state_active = true;
      price_row = some price;
      recipient = λ channel. none;
      send = λ channel address. none;
      event_written = true;
      trigger_written = true;
    }
    ∷ []

-- the rule fires, and the event row counts as its delivery
fired_test : (evaluate_alert_rules no_price brief 600 rows).delivered ≡ 1
unfolding evaluate_alert_rules evaluate_row in_cooldown decide_rule decide_price_rule
    price_watermark decide_price_trigger decide_change le_int negate persist_firing deliver
fired_test = refl

abbrev purge : Dict Value
purge = ("cutoff_column", str "created_at") ∷ ("cutoff", str "2026-01-01") ∷ []

abbrev reads_dates : String → Bool
reads_dates text = not (text == "")

authorize_retention_delete-Sound_example :
    IsPurge gate reads_dates true "maintenance_retention" "api_logs" purge
      (authorize_retention_delete gate reads_dates true "maintenance_retention" "api_logs" purge)
    ⊎ IsRejected true "maintenance_retention" "api_logs" "retention_delete" purge
        (authorize_retention_delete gate reads_dates true "maintenance_retention" "api_logs" purge)
authorize_retention_delete-Sound_example =
    authorize_retention_delete-Sound gate reads_dates true "maintenance_retention" "api_logs" purge

-- the gate refuses to purge a table of users
purge_test :
    (authorize_retention_delete gate reads_dates true "maintenance_retention" "users"
      purge).outcome.passed
    ≡ false
unfolding authorize_retention_delete authorize_configured retention_tables refuse_retention reject
purge_test = refl

api_logs :
    get retention_tables "api_logs"
    ≡ some (record { cutoff_column = "created_at"; window_days = 60 })
unfolding retention_tables
api_logs = refl

abbrev second_of : ℕ → String
second_of time = "2026"

authorize_table_passes_example :
    Returns
      (λ d. d.outcome.passed ≡ true)
      (authorize_table gate reads_dates second_of "api_logs" 63903000000)
authorize_table_passes_example =
    authorize_table_passes gate reads_dates second_of "api_logs"
      (record { cutoff_column = "created_at"; window_days = 60 }) 63903000000 "secret" api_logs
      (omega arith) usable λ time. refl
