-- ===== src/Firewall/Validate/Raising.antt =====
-- Where `_validate_against_contract` raises.
use imperecta.Base.{
  String, ◌≡◌, refl, Bool, true, false, Option, List, [], ◌∷◌, all, Dict, get, ok, Option-cases,
  inl, inr, arith, if_rule, ok-injective,
}
use imperecta.Payload.{Value, not_finite}
use imperecta.Contracts.{ColumnContract}
use imperecta.Firewall.Validate.{
  numeric_raises, entry_raises, validation_raises, checked_against_contract,
  validate_against_contract,
}

abbrev pub is_finite : Value → Bool
is_finite (not_finite s) = false
is_finite _ = true

numeric_not_raised :
    (value : Value) (spec : ColumnContract)
    → is_finite value ≡ true
    → numeric_raises value spec ≡ false
unfolding numeric_raises
numeric_not_raised (not_finite s) spec h = absurd (cc)
numeric_not_raised _ spec h = refl

-- A payload without nan and infinities raises nothing.
pub finite-not_raised :
    (fields : Dict Value) (contract : Dict ColumnContract)
    → all (λ entry. is_finite (entry.1)) fields ≡ true
    → validation_raises fields contract ≡ false
unfolding validation_raises entry_raises
finite-not_raised [] contract h = refl
finite-not_raised ((name, value) ∷ fields) contract h =
    let rest = finite-not_raised fields contract (ground arith) in
    let here : is_finite value ≡ true = ground arith in
    elim (Option-cases (get contract name)) [
      | inl e ↦ rw (e, validation_raises, entry_raises) rest
      | inr (spec, e) ↦
          rw (e, validation_raises, entry_raises, numeric_not_raised value spec here) rest
    ]

pub checked-not_raised :
    (fields : Dict Value) (contract : Dict ColumnContract)
    → validation_raises fields contract ≡ false
    → checked_against_contract fields contract ≡ ok (validate_against_contract fields contract)
unfolding checked_against_contract
checked-not_raised fields contract h = rw h refl

-- What a check returns is the verdict.
pub checked-ok :
    (fields : Dict Value) (contract : Dict ColumnContract) (v : Bool × List String × Option String)
    → checked_against_contract fields contract ≡ ok v
    → validate_against_contract fields contract ≡ v
unfolding checked_against_contract
checked-ok fields contract v =
    if_rule (λ r. r ≡ ok v → validate_against_contract fields contract ≡ v)
      (validation_raises fields contract) _ _ (λ _ e. absurd (cc)) λ _ e. ok-injective e
