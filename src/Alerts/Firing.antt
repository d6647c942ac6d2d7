-- ===== src/Alerts/Firing.antt =====
-- When a rule fires, and that it does not fire twice for one fact.
use imperecta.Base.{
  if-Has, ℕ, ◌≤◌, leb, ltb, none, le→leb, ℤ, String, ◌≡◌, refl, Bool, true, false, not, ◌&&◌, ◌||◌,
  ◌==◌, Option, some, Option-cases, inl, inr, if◌then◌else◌, arith,
}
use native.Mathlib.Nat.{le_trans}
use imperecta.Alerts.{
  Rule, PriceRow, TriggerDecision, no_fire, price_watermark, decide_change, decide_price_trigger,
  decide_availability_trigger, decide_price_rule, decide_rule, triggered, le_int, negate,
}

choices :
    (old drop falls rise climbs : Bool) (d : TriggerDecision)
    → d.fire ≡ true
    → (if old
        then no_fire
        else if drop && not falls
        then no_fire
        else if rise && not climbs
        then no_fire
        else d).fire
      ≡ (not old && (not drop || falls) && (not rise || climbs))
unfolding no_fire
choices true drop falls rise climbs d e = refl
choices false true false rise climbs d e = refl
choices false true true true false d e = refl
choices false true true true true d e = e
choices false true true false climbs d e = e
choices false false falls true false d e = refl
choices false false falls true true d e = e
choices false false falls false climbs d e = e

module _ (old_price : ℕ → ℤ → Option ℕ) (price_message : PriceRow → ℤ → Option ℕ → String) where
  same_state :
      (title : String) (active : Bool)
      → (decide_availability_trigger old_price price_message title active active).fire ≡ false
  unfolding decide_availability_trigger no_fire
  same_state title true = refl
  same_state title false = refl

  seen : (rule : Rule) (now : ℕ) → now ≤ price_watermark (triggered now rule)
  unfolding price_watermark triggered
  seen rule now = ground arith

  old_row :
      (rule : Rule) (now : ℕ) (row : PriceRow)
      → row.scraped_at ≤ now
      → (decide_price_rule old_price price_message (triggered now rule) (some row)).fire ≡ false
  unfolding decide_price_rule no_fire
  old_row rule now row past = elim (Option-cases ((triggered now rule).threshold_pct)) [
    | inl e ↦ rw (e, decide_price_rule) refl
    | inr (t, e) ↦
        let known : leb row.scraped_at (price_watermark (triggered now rule)) ≡ true =
          le→leb _ _ (le_trans past (seen rule now)) in
        rw (e, known, decide_price_rule) refl
  ]

  -- A rule that was triggered at a time does not fire again, however long after its cooldown, for a
  -- price that was scraped by then, or for the state of the listing that the event has recorded.
  pub triggered-fires_once :
      (rule : Rule) (now : ℕ) (title : String) (listing_is_active : Bool) (row : PriceRow)
      → row.scraped_at ≤ now
      → (decide_rule old_price price_message title listing_is_active listing_is_active
          (some row)
          (triggered now rule)).fire
        ≡ false
  unfolding decide_rule
  triggered-fires_once rule now title listing_is_active row past =
      if-Has (λ (d : TriggerDecision). d.fire ≡ false)
        ((triggered now rule).alert_type == "availability") (same_state title listing_is_active)
        (old_row rule now row past)

  -- the row is newer than the last trigger, if there was one
  abbrev pub newer : Option ℕ → ℕ → Bool
  newer none scraped_at = true
  newer (some last) scraped_at = ltb last scraped_at

  watermark-newer :
      (rule : Rule) (scraped_at : ℕ)
      → not (leb scraped_at (price_watermark rule))
        ≡ (ltb rule.created_at scraped_at && newer rule.last_triggered_at scraped_at)
  unfolding price_watermark
  watermark-newer rule scraped_at = elim (Option-cases rule.last_triggered_at) [
    | inl e ↦ rw e (ground arith)
    | inr (last, e) ↦ rw e (ground arith)
  ]

  -- A price rule with a threshold fires on a row with a known change exactly when the row was
  -- scraped after the creation of the rule and after its last trigger, if there was one, and the
  -- change reaches the threshold in the direction of the rule.
  pub decide_price_rule-fires :
      (rule : Rule) (row : PriceRow) (threshold pct : ℤ)
      → rule.threshold_pct ≡ some threshold
      → row.price_change_pct ≡ some pct
      → (decide_price_rule old_price price_message rule (some row)).fire ≡ (
          ltb rule.created_at row.scraped_at
          && newer rule.last_triggered_at row.scraped_at
          && (not (rule.alert_type == "price_drop") || le_int pct (negate threshold))
          && (not (rule.alert_type == "price_rise") || le_int threshold pct))
  unfolding decide_price_rule decide_price_trigger decide_change no_fire price_watermark
  decide_price_rule-fires rule row threshold pct e f = rw⁻¹ (watermark-newer rule row.scraped_at) (
      rw (e, f, decide_price_rule, decide_price_trigger)
        (choices (leb row.scraped_at (price_watermark rule)) (rule.alert_type == "price_drop")
          (le_int pct (negate threshold)) (rule.alert_type == "price_rise") (le_int threshold pct) _
          refl))
