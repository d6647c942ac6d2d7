-- ===== src/Alerts.antt =====
-- The trigger engine of backend/app/modules/alerts/engine.py. Times are in seconds; percentages, and
-- thresholds with them, are integers of one scale. The texts of messages, `_old_price_from_change`
-- (decimal division), `rule_channels`, the sends and the answers of the alert door are arguments. The
-- theorems are in `Firing` and `Counts`.
pub mod Firing
pub mod Counts
use Prim.Native.String.{◌++◌ as ◌++ₛ◌}
use imperecta.Base.{
  ℕ, zero, suc, ◌+◌, ◌*◌, ltb, leb, ◌=?◌, ℤ, pos, negsuc, String, Bool, true, false, not, ◌&&◌,
  ◌||◌, ◌==◌, Option, none, some, List, [], ◌∷◌, is_empty, or_else, if◌then◌else◌,
}

unfoldable pub le_int : ℤ → ℤ → Bool
le_int (pos a) (pos b) = leb a b
le_int (pos a) (negsuc b) = false
le_int (negsuc a) (pos b) = true
le_int (negsuc a) (negsuc b) = leb b a

unfoldable pub negate : ℤ → ℤ
negate (pos zero) = pos zero
negate (pos (suc a)) = negsuc a
negate (negsuc a) = pos (suc a)

unfoldable pub double : ℤ → ℤ
double (pos a) = pos (2 * a)
double (negsuc a) = negsuc (2 * a + 1)

unfoldable pub absolute : ℤ → ℤ
absolute (pos a) = pos a
absolute (negsuc a) = pos (suc a)

-- the columns of an alert that the engine reads or bumps
pub record Rule : Type 0 where
  pub id : String
  pub alert_type : String
  pub threshold_pct : Option ℤ
  pub channels : List String
  pub created_at : ℕ
  pub last_triggered_at : Option ℕ
  pub cooldown_minutes : ℕ
  pub trigger_count : ℕ

pub record PriceRow : Type 0 where
  pub id : ℕ
  pub scraped_at : ℕ
  pub price : ℕ
  pub price_change_pct : Option ℤ

pub record TriggerDecision : Type 0 where
  pub fire : Bool
  pub old_value : Option ℕ
  pub new_value : Option ℕ
  pub change_pct : Option ℤ
  pub severity : String
  pub fact_price_id : Option ℕ
  pub message : String

-- `TriggerDecision(fire=False)`
unfoldable pub no_fire : TriggerDecision
no_fire = record {
  fire = false;
  old_value = none;
  new_value = none;
  change_pct = none;
  severity = "medium";
  fact_price_id = none;
  message = "";
}

-- `_in_cooldown`
unfoldable pub in_cooldown : Rule → ℕ → Bool
in_cooldown rule now = elim (rule.last_triggered_at) [
  | none ↦ false
  | some last ↦ ltb now (last + 60 * rule.cooldown_minutes)
]

unfoldable pub price_watermark : Rule → ℕ
price_watermark rule = elim (rule.last_triggered_at) [
  | none ↦ rule.created_at
  | some last ↦ if ltb rule.created_at last then last else rule.created_at
]

module _ (old_price : ℕ → ℤ → Option ℕ) (price_message : PriceRow → ℤ → Option ℕ → String) where
  -- `decide_price_trigger` once the change is known
  unfoldable pub decide_change : String → ℤ → PriceRow → ℤ → TriggerDecision
  decide_change alert_type threshold row pct =
      if alert_type == "price_drop" && not (le_int pct (negate threshold))
      then no_fire
      else if alert_type == "price_rise" && not (le_int threshold pct)
      then no_fire
      else record {
        fire = true;
        old_value = old_price row.price pct;
        new_value = some row.price;
        change_pct = some pct;
        severity = if le_int (double threshold) (absolute pct) then "high" else "medium";
        fact_price_id = some row.id;
        message = price_message row pct (old_price row.price pct);
      }

  unfoldable pub decide_price_trigger : String → ℤ → PriceRow → TriggerDecision
  decide_price_trigger alert_type threshold row = elim (row.price_change_pct) [
    | none ↦ no_fire
    | some pct ↦ decide_change alert_type threshold row pct
  ]

  unfoldable pub decide_availability_trigger : String → Bool → Bool → TriggerDecision
  decide_availability_trigger product_title true true = no_fire
  decide_availability_trigger product_title false false = no_fire
  decide_availability_trigger product_title true false = record {
    fire = true;
    old_value = some 0;
    new_value = some 1;
    change_pct = none;
    severity = "medium";
    fact_price_id = none;
    message = product_title ++ₛ ": listing is available again";
  }
  decide_availability_trigger product_title false true = record {
    fire = true;
    old_value = some 1;
    new_value = some 0;
    change_pct = none;
    severity = "high";
    fact_price_id = none;
    message = product_title ++ₛ ": listing became unavailable";
  }

  -- a price rule, with the latest price of its listing
  unfoldable pub decide_price_rule : Rule → Option PriceRow → TriggerDecision
  decide_price_rule rule none = no_fire
  decide_price_rule rule (some row) = elim (rule.threshold_pct) [
    | none ↦ no_fire
    | some threshold ↦
        if leb row.scraped_at (price_watermark rule)
        then no_fire
        else decide_price_trigger rule.alert_type threshold row
  ]

  -- the decision on a rule that is not in its cooldown
  unfoldable pub decide_rule : String → Bool → Bool → Option PriceRow → Rule → TriggerDecision
  decide_rule product_title listing_is_active previous_state_active price_row rule =
      if rule.alert_type == "availability"
      then decide_availability_trigger product_title listing_is_active previous_state_active
      else decide_price_rule rule price_row

-- `_deliver`: `recipient` gives the address on a channel (`none`: no channel of this name, or no
-- address), and `send` what a send answers (`none`: it raises)
unfoldable pub deliver :
    (recipient : String → Option String) (send : String → String → Option Bool)
    → List String
    → List String
deliver recipient send [] = []
deliver recipient send (channel ∷ channels) =
    let rest = deliver recipient send channels in
    if channel == "in_app" then channel ∷ rest else elim (recipient channel) [
      | none ↦ rest
      | some address ↦ if or_else (send channel address) false then channel ∷ rest else rest
    ]

-- an active rule with what the queries of the run found for it, and what its sends and its two
-- writes answer
pub record Row : Type 0 where
  pub rule : Rule
  pub product_title : String
  pub listing_is_active : Bool
  pub previous_state_active : Bool
  pub price_row : Option PriceRow
  pub recipient : String → Option String
  pub send : String → String → Option Bool
  pub event_written : Bool
  pub trigger_written : Bool

-- an event that is recorded
pub record Event : Type 0 where
  pub alert_id : String
  pub decision : TriggerDecision
  pub delivered_via : List String

-- the rule after `rule_trigger`
unfoldable pub triggered : ℕ → Rule → Rule
triggered now rule = record rule {
  last_triggered_at = some now;
  trigger_count = rule.trigger_count + 1;
}

pub record Summary : Type 0 where
  pub considered : ℕ
  pub fired : ℕ
  pub delivered : ℕ
  pub cooldown_skips : ℕ
  pub events : List Event
  pub rules : List Rule

abbrev pub nothing_yet : Summary
nothing_yet = record {
  considered = 0;
  fired = 0;
  delivered = 0;
  cooldown_skips = 0;
  events = [];
  rules = [];
}

-- `_persist_firing`, and the counters behind it
unfoldable pub persist_firing : ℕ → Row → TriggerDecision → Summary → Summary
persist_firing now row decision later =
    let via = deliver row.recipient row.send row.rule.channels in
    if not row.event_written
    then record later { rules = row.rule ∷ later.rules }
    else record later {
      fired = suc later.fired;
      delivered = if is_empty via then later.delivered else suc later.delivered;
      events =
          record { alert_id = row.rule.id; decision = decision; delivered_via = via }
          ∷ later.events;
      rules = (if row.trigger_written then triggered now row.rule else row.rule) ∷ later.rules;
    }

module _ (old_price : ℕ → ℤ → Option ℕ) (price_message : PriceRow → ℤ → Option ℕ → String)
    (now : ℕ) where
  -- one round of the loop, before the rounds of the rows behind it
  unfoldable pub evaluate_row : Row → Summary → Summary
  evaluate_row row later =
      let decision =
        decide_rule old_price price_message row.product_title row.listing_is_active
          row.previous_state_active row.price_row row.rule in
      if in_cooldown row.rule now
      then record later {
        cooldown_skips = suc later.cooldown_skips;
        rules = row.rule ∷ later.rules;
      }
      else if not decision.fire
      then record later { rules = row.rule ∷ later.rules }
      else persist_firing now row decision later

  unfoldable pub evaluate_alert_rules : List Row → Summary
  evaluate_alert_rules [] = nothing_yet
  evaluate_alert_rules (row ∷ rows) =
      let later = evaluate_alert_rules rows in
      evaluate_row row (record later { considered = suc later.considered })
