-- ===== src/Base/Dicts.antt =====
-- A dictionary as the list of its entries in insertion order, keys distinct.
use Prim.Native.String.{String}
use mathlib.Core.Path.{◌≡◌, refl}
use mathlib.Core.Bool.{Bool, false, not}
use mathlib.Core.Option.{Option, none, some}
use mathlib.Core.List.{List, [], ◌∷◌}
use native.Mathlib.Omega.{arith}
use text.Mathlib.Text.{◌==◌}
use text.Mathlib.TextEquality.{eq_iff}
use imperecta.Base.Tests.{if◌then◌else◌, is_none}
use imperecta.Base.Lists.{elem}

abbrev pub Dict {ℓ} : Type ℓ → Type ℓ
Dict V = List (String × V)

module _ {ℓ} {V : Type ℓ} where
  -- `d.get(k)`
  abbrev pub get : Dict V → String → Option V
  get [] k = none
  get ((j, v) ∷ d) k = if j == k then some v else get d k

  abbrev pub keys : Dict V → List String
  keys [] = []
  keys ((j, v) ∷ d) = j ∷ keys d

  -- `k in d`
  abbrev pub has : Dict V → String → Bool
  has d k = elem k (keys d)

  -- `d[k] = v`
  abbrev pub insert : Dict V → String → V → Dict V
  insert [] k v = (k, v) ∷ []
  insert ((j, w) ∷ d) k v = if j == k then (j, v) ∷ d else (j, w) ∷ insert d k v

  -- A key is present exactly when its lookup finds a value.
  pub has-get : (d : Dict V) (k : String) → has d k ≡ not (is_none (get d k))
  has-get [] k = refl
  has-get ((j, v) ∷ d) k = ground (arith, has-get d k)

  pub get-absent : (d : Dict V) (k : String) → has d k ≡ false → get d k ≡ none
  get-absent [] k h = refl
  get-absent ((j, v) ∷ d) k h = ground (arith, get-absent d k)

  pub get-insert :
      (d : Dict V) (k j : String) (v : V)
      → get (insert d k v) j ≡ (if k == j then some v else get d j)
  get-insert [] k j v = refl
  get-insert ((i, w) ∷ d) k j v =
      ground (arith, eq_iff k j, eq_iff i k, eq_iff i j, get-insert d k j v)
