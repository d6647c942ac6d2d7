-- ===== src/Firewall/Validate/Numeric.antt =====
-- What `_numeric_fits` accepts.
use imperecta.Base.{ℕ, ◌+◌, ◌≤◌, ◌≡◌, ◌↔◌, true, some, arith, pos, negsuc, length}
use imperecta.Payload.{float, Float}
use imperecta.Firewall.Validate.{numeric_fits}

-- A float whose decimal has e + 1 digits behind the point fits a column exactly when its digits,
-- and its digits behind the point, are no more than the precision, and those behind the point no
-- more than the scale.
pub fraction_fits_iff :
    (f : Float) (e precision scale : ℕ)
    → f.decimal.exponent ≡ negsuc e
    → (numeric_fits (float f) (some precision) (some scale) ≡ true)
      ↔ ((length f.decimal.digits ≤ precision) × (e + 1 ≤ precision) × (e + 1 ≤ scale))
unfolding numeric_fits
fraction_fits_iff f e precision scale h = (λ t. ground arith, λ t. ground arith)

-- A float whose decimal has the exponent e ≥ 0 fits a column exactly when its written digits are no
-- more than the precision: the e zeros that the exponent stands for are not counted, so 1e+22 fits
-- NUMERIC(12, 2).
pub positive_exponent_not_counted :
    (f : Float) (e precision scale : ℕ)
    → f.decimal.exponent ≡ pos e
    → (numeric_fits (float f) (some precision) (some scale) ≡ true)
      ↔ (length f.decimal.digits ≤ precision)
unfolding numeric_fits
positive_exponent_not_counted f e precision scale h = (λ t. ground arith, λ t. ground arith)
