-- ===== src/Tick/Branches.antt =====
-- A property holds of a branching result when it holds of its branches.
use imperecta.Base.{◌≡◌, Bool, true, false, not, Option, none, some, if◌then◌else◌}
use imperecta.Tick.Row.{given, Touch, on_touch, written, rejected, raised}

-- `given` has a property when its two ends have it
pub given-Has {ℓ κ} :
    {X : Type ℓ} {R : Type κ} (P : R → Type 0) (o : Option X) {failed : R} {next : X → R}
    → P failed
    → ((x : X) → P (next x))
    → P (given o failed next)
given-Has P none p q = p
given-Has P (some x) p q = q x

pub given_none-Has {ℓ κ} :
    {X : Type ℓ} {R : Type κ} (P : R → Type 0) (o : Option X) (otherwise : R) (next : X → R)
    → o ≡ none
    → P otherwise
    → P (given o otherwise next)
given_none-Has P o otherwise next e q = rw e q

pub given_some-Has {ℓ κ} :
    {X : Type ℓ} {R : Type κ} (P : R → Type 0) (o : Option X) (x : X) (otherwise : R) (next : X → R)
    → o ≡ some x
    → P (next x)
    → P (given o otherwise next)
given_some-Has P o x otherwise next e q = rw e q

pub if_not-Has {κ} :
    {R : Type κ} (P : R → Type 0) (b : Bool) (x : R) {y : R}
    → b ≡ true
    → P y
    → P (if not b then x else y)
if_not-Has P true x e q = q
if_not-Has P false x e q = absurd (cc)

pub on_touch-Has {κ} :
    {R : Type κ} (P : R → Type 0) (t : Touch) {a b c : R} → P a → P b → P c → P (on_touch t a b c)
on_touch-Has P written p q r = p
on_touch-Has P rejected p q r = q
on_touch-Has P raised p q r = r
