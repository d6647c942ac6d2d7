-- ===== src/Firewall/Validate/Columns.antt =====
-- What a payload that passed its column contract satisfies.
use Prim.Native.String.{count}
use imperecta.Base.{
  ℕ, ◌≤◌, String, ◌≡◌, ◌≢◌, refl, true, false, some, List, [], ◌∷◌, ◌++◌, arith, Dict, get, elem,
  eq_iff,
}
use mathlib.Core.Path.{subst}
use imperecta.Payload.{Value, str, null, str_of}
use imperecta.Contracts.{ColumnContract}
use imperecta.Firewall.Validate.{
  column_failures, entry_failures, payload_failures, validate_against_contract,
}

append-nil_left {ℓ} : {A : Type ℓ} (xs ys : List A) → xs ++ ys ≡ [] → (xs ≡ []) × (ys ≡ [])
append-nil_left [] ys h = (refl, h)
append-nil_left (x ∷ xs) ys h = absurd (cc)

payload_failures_at :
    (fields : Dict Value) (contract : Dict ColumnContract) (name : String) (value : Value)
    → payload_failures fields contract ≡ []
    → get fields name ≡ some value
    → entry_failures name value contract ≡ []
unfolding payload_failures
payload_failures_at [] contract name value h found = absurd (cc)
payload_failures_at ((k, v) ∷ fields) contract name value h found = ground (
  arith,
  eq_iff k name,
  payload_failures_at fields contract name value,
  append-nil_left (entry_failures k v contract) (payload_failures fields contract),
)

unfold_entry :
    (name : String) (value : Value) (contract : Dict ColumnContract) (spec : ColumnContract)
    → get contract name ≡ some spec
    → entry_failures name value contract ≡ column_failures name value spec
unfolding entry_failures
unfold_entry name value contract spec known = rw (known, entry_failures)

string_column_bound :
    (name text : String) (spec : ColumnContract) (m : ℕ)
    → spec.type ≡ "string"
    → column_failures name (str text) spec ≡ []
    → spec.max_len ≡ some m
    → count text ≤ m
unfolding column_failures
string_column_bound name text spec m is_string clean bound =
    ground (arith, eq_iff spec.type "string")

string_column_check :
    (name text : String) (spec : ColumnContract) (allowed : List String)
    → column_failures name (str text) spec ≡ []
    → spec.check_values ≡ some allowed
    → allowed ≢ []
    → elem text allowed ≡ true
unfolding column_failures str_of
string_column_check name text spec [] clean listed nonempty = absurd (nonempty refl)
string_column_check name text spec (a ∷ allowed) clean listed nonempty = ground arith

null_column :
    (name : String) (spec : ColumnContract)
    → spec.nullable ≡ false
    → column_failures name null spec ≢ []
unfolding column_failures
null_column name spec h = ground arith

-- In a payload that passes its contract, no column that the contract knows fails a rule.
pub validated_column :
    (fields : Dict Value) (contract : Dict ColumnContract) (name : String) (value : Value)
    (spec : ColumnContract)
    → (validate_against_contract fields contract).0 ≡ true
    → get fields name ≡ some value
    → get contract name ≡ some spec
    → column_failures name value spec ≡ []
unfolding validate_against_contract
validated_column fields contract name value spec passed found known =
    ground
      (arith, payload_failures_at fields contract name value, unfold_entry name value contract spec)

-- In a payload that passes its contract, a text in a column of type `string` with a length bound is
-- no longer than the bound.
pub validated_length :
    (fields : Dict Value) (contract : Dict ColumnContract) (name text : String)
    (spec : ColumnContract) (m : ℕ)
    → (validate_against_contract fields contract).0 ≡ true
    → get fields name ≡ some (str text)
    → get contract name ≡ some spec
    → spec.type ≡ "string"
    → spec.max_len ≡ some m
    → count text ≤ m
validated_length fields contract name text spec m passed found known is_string bound =
    string_column_bound name text spec m is_string
      (validated_column fields contract name (str text) spec passed found known) bound

-- In a payload that passes its contract, a text in a column that lists allowed values is one of
-- them.
pub validated_choice :
    (fields : Dict Value) (contract : Dict ColumnContract) (name text : String)
    (spec : ColumnContract) (allowed : List String)
    → (validate_against_contract fields contract).0 ≡ true
    → get fields name ≡ some (str text)
    → get contract name ≡ some spec
    → spec.check_values ≡ some allowed
    → allowed ≢ []
    → elem text allowed ≡ true
validated_choice fields contract name text spec allowed passed found known listed nonempty =
    string_column_check name text spec allowed
      (validated_column fields contract name (str text) spec passed found known) listed nonempty

-- In a payload that passes its contract, a column that is not nullable holds no `None`.
pub validated_not_null :
    (fields : Dict Value) (contract : Dict ColumnContract) (name : String) (value : Value)
    (spec : ColumnContract)
    → (validate_against_contract fields contract).0 ≡ true
    → get fields name ≡ some value
    → get contract name ≡ some spec
    → spec.nullable ≡ false
    → value ≢ null
validated_not_null fields contract name value spec passed found known not_nullable is_none =
    null_column name spec not_nullable (
      subst (λ v. column_failures name v spec ≡ []) is_none
        (validated_column fields contract name value spec passed found known))
