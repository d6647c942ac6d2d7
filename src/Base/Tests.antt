-- ===== src/Base/Tests.antt =====
-- Boolean tests, the conditional, results that may be an exception, and case splits that keep
-- their equation.
use Prim.Native.Nat.{ℕ, ◌≤◌, ◌<◌, compare, Ordering}
use Prim.Native.String.{String}
use mathlib.Core.Path.{◌≡◌, refl, ap}
use mathlib.Core.Logic.{◌⊎◌, inl, inr}
use mathlib.Core.Bool.{Bool, true, false, not, ◌&&◌}
use mathlib.Core.Option.{Option, none, some}
use native.Mathlib.Omega.{arith}

abbrev pub ltb : ℕ → ℕ → Bool
ltb a b = elim (compare a b) [ Ordering.lt ↦ true | _ ↦ false ]

abbrev pub leb : ℕ → ℕ → Bool
leb a b = elim (compare a b) [ Ordering.gt ↦ false | _ ↦ true ]

-- equality of numbers; `==` is that of texts
infix 50 ◌=?◌
abbrev pub ◌=?◌ : ℕ → ℕ → Bool
a =? b = elim (compare a b) [ Ordering.eq ↦ true | _ ↦ false ]

infix 1 if◌then◌else◌
abbrev pub if◌then◌else◌ {ℓ} : {A : Type ℓ} → Bool → A → A → A
if true then x else y = x
if false then x else y = y

pub ltb→lt : (a b : ℕ) → ltb a b ≡ true → a < b
ltb→lt a b h = ground arith

pub leb→le : (a b : ℕ) → leb a b ≡ true → a ≤ b
leb→le a b h = ground arith

pub le→leb : (a b : ℕ) → a ≤ b → leb a b ≡ true
le→leb a b h = ground arith

pub Bool-cases : (b : Bool) → (b ≡ true) ⊎ (b ≡ false)
Bool-cases true = inl refl
Bool-cases false = inr refl

pub Option-cases {ℓ} : {A : Type ℓ} (o : Option A) → (o ≡ none) ⊎ ((a : A) × (o ≡ some a))
Option-cases none = inl refl
Option-cases (some a) = inr (a, refl)

pub &&-true : (a b : Bool) → (a && b) ≡ true → (a ≡ true) × (b ≡ true)
&&-true a b h = ground arith

pub not-false : {b : Bool} → not b ≡ false → b ≡ true
not-false {b} h = ground arith

abbrev pub is_none {ℓ} : {A : Type ℓ} → Option A → Bool
is_none none = true
is_none (some a) = false

-- `o or d`, where `o` is `None` or a value that Python takes for true
abbrev pub or_else {ℓ} : {A : Type ℓ} → Option A → A → A
or_else none d = d
or_else (some a) d = a

pub some-injective {ℓ} : {A : Type ℓ} {a b : A} → some a ≡ some b → a ≡ b
some-injective {a = a} h = ap (λ o. or_else o a) h

-- a call that returns, or raises `ValueError` or `TypeError`
pub data Result {ℓ} (A : Type ℓ) : Type ℓ where
  ok : A → Result A
  value_error : String → Result A
  type_error : String → Result A

abbrev result_or {ℓ} : {A : Type ℓ} → Result A → A → A
result_or (ok a) d = a
result_or _ d = d

pub ok-injective {ℓ} : {A : Type ℓ} {a b : A} → ok a ≡ ok b → a ≡ b
ok-injective {a = a} h = ap (λ r. result_or r a) h

infixl 5 ◌>>=◌
abbrev pub ◌>>=◌ {ℓ κ} : {X : Type ℓ} {Y : Type κ} → Result X → (X → Result Y) → Result Y
ok x >>= next = next x
value_error message >>= next = value_error message
type_error message >>= next = type_error message

pub >>=-eq-ok {ℓ κ} :
    {X : Type ℓ} {Y : Type κ} (call : Result X) (next : X → Result Y) {y : Y}
    → (call >>= next) ≡ ok y
    → (x : X) × (call ≡ ok x) × (next x ≡ ok y)
>>=-eq-ok (ok x) next returned = (x, refl, returned)
>>=-eq-ok (value_error message) next returned = absurd (cc)
>>=-eq-ok (type_error message) next returned = absurd (cc)

-- The call returns, and what it returns satisfies `P`.
abbrev pub Returns {ℓ} : {A : Type ℓ} → (A → Type 0) → Result A → Type 0
Returns P (ok a) = P a
Returns P (value_error e) = ⊥
Returns P (type_error e) = ⊥

module _ {ℓ κ} {A : Type ℓ} (P : A → Type κ) where
  -- A test splits a statement about its result.
  pub if_rule : (b : Bool) (x y : A) → (b ≡ true → P x) → (b ≡ false → P y) → P (if b then x else y)
  if_rule true x y hx hy = hx refl
  if_rule false x y hx hy = hy refl

-- A property holds of a conditional when it holds of both branches.
pub if-Has {ℓ} :
    {A : Type ℓ} (P : A → Type 0) (b : Bool) {x y : A} → P x → P y → P (if b then x else y)
if-Has P true p q = p
if-Has P false p q = q
