-- ===== src/Alerts/Counts.antt =====
-- The counters of a run of the trigger engine.
use imperecta.Base.{
  ℕ, suc, ◌+◌, ℤ, String, ◌≡◌, Bool, not, ◌&&◌, Option, List, [], ◌∷◌, map, is_empty, length,
  if◌then◌else◌,
}
use imperecta.Alerts.{Rule, PriceRow, Row, Summary, deliver, in_cooldown, decide_rule, triggered}

-- how many rows pass a test
abbrev pub count_rows : (Row → Bool) → List Row → ℕ
count_rows p [] = 0
count_rows p (row ∷ rows) = let rest = count_rows p rows in if p row then suc rest else rest

module _ (old_price : ℕ → ℤ → Option ℕ) (price_message : PriceRow → ℤ → Option ℕ → String)
    (now : ℕ) where
  abbrev pub is_cooling : Row → Bool
  is_cooling row = in_cooldown row.rule now

  -- the rule is awake, decides to fire, and its event is written
  abbrev pub is_fired : Row → Bool
  is_fired row =
      not (in_cooldown row.rule now)
      && (decide_rule old_price price_message row.product_title row.listing_is_active
          row.previous_state_active row.price_row row.rule).fire
      && row.event_written

  -- one send at least succeeded
  abbrev pub is_delivered : Row → Bool
  is_delivered row =
      is_fired row && not (is_empty (deliver row.recipient row.send row.rule.channels))

  -- awake, and without an event that is written
  abbrev pub is_silent : Row → Bool
  is_silent row = not (is_cooling row) && not (is_fired row)

  abbrev pub rule_after : Row → Rule
  rule_after row = if is_fired row && row.trigger_written then triggered now row.rule else row.rule

  -- Each counter is the number of the rows that it is to count, every row is fired, cooling or
  -- silent, and the rules that fired are triggered, where that is written.
  pub record AddsUp (rows : List Row) (s : Summary) : Type 0 where
    pub considered : s.considered ≡ length rows
    pub skipped : s.cooldown_skips ≡ count_rows is_cooling rows
    pub fired : s.fired ≡ count_rows is_fired rows
    pub delivered : s.delivered ≡ count_rows is_delivered rows
    pub in_all : s.fired + s.cooldown_skips + count_rows is_silent rows ≡ s.considered
    pub rules : s.rules ≡ map rule_after rows
