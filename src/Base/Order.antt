-- ===== src/Base/Order.antt =====
-- The order of texts by code points, Python's `<` on `str`.
use Prim.Native.Nat.{Ordering}
use Prim.Native.String.{String, compare, then}
use Prim.Native.String as S
use Prim.Native.String.compare
use mathlib.Core.Path.{◌≡◌, refl}
use mathlib.Core.Bool.{Bool, true, false}
use native.Mathlib.Omega.{arith}
use text.Mathlib.Text.{◌==◌}

abbrev pub is_lt : Ordering → Bool
is_lt Ordering.lt = true
is_lt Ordering.eq = false
is_lt Ordering.gt = false

abbrev pub lt_text : String → String → Bool
lt_text s t = is_lt (compare s t)

pub lt_text_irrefl : (s : String) → lt_text s s ≡ false
lt_text_irrefl S.String.[] = refl
lt_text_irrefl (S.String.◌∷◌ c s) =
    let rest = lt_text_irrefl s in ground (arith, compare.cons-cons c c s s)

lt_text-nil : (t : String) → lt_text t S.String.[] ≡ false
lt_text-nil S.String.[] = refl
lt_text-nil (S.String.◌∷◌ d t) = ground (arith, compare.cons-nil d t)

pub lt_text_trans : (s t u : String) → lt_text s t ≡ true → lt_text t u ≡ true → lt_text s u ≡ true
lt_text_trans s t S.String.[] h k = absurd (ground (arith, lt_text-nil t))
lt_text_trans S.String.[] t (S.String.◌∷◌ e u) h k = ground (arith, compare.nil-cons e u)
lt_text_trans (S.String.◌∷◌ c s) S.String.[] (S.String.◌∷◌ e u) h k =
    absurd (ground (arith, compare.cons-nil c s))
lt_text_trans (S.String.◌∷◌ c s) (S.String.◌∷◌ d t) (S.String.◌∷◌ e u) h k =
    let rest = lt_text_trans s t u in
    ground (arith, compare.cons-cons c d s t, compare.cons-cons d e t u, compare.cons-cons c e s u)

-- Of two different texts one is before the other.
pub lt_text_total : (s t : String) → s == t ≡ false → lt_text s t ≡ false → lt_text t s ≡ true
lt_text_total S.String.[] S.String.[] n h = absurd (cc)
lt_text_total S.String.[] (S.String.◌∷◌ d t) n h = absurd (ground (arith, compare.nil-cons d t))
lt_text_total (S.String.◌∷◌ c s) S.String.[] n h = ground (arith, compare.nil-cons c s)
lt_text_total (S.String.◌∷◌ c s) (S.String.◌∷◌ d t) n h =
    let rest = lt_text_total s t in
    ground (arith, compare.cons-cons c d s t, compare.cons-cons d c t s)
