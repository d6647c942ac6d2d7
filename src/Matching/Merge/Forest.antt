-- ===== src/Matching/Merge/Forest.antt =====
-- What `resolve` finds in the dictionary of merged groups.
use imperecta.Base.{
  some-injective, ℕ, zero, suc, ◌≤◌, ◌<◌, String, ◌≡◌, ◌⊎◌, refl, sym, ◌∙◌, true, false, ◌==◌,
  eq_iff, none, some, Option-cases, Bool-cases, inl, inr, [], ◌∷◌, length, lt_text, lt_text_irrefl,
  lt_text_trans, Dict, get, if◌then◌else◌, arith,
}
use imperecta.Matching.Merge.{resolve_on, resolve}

-- Every group is merged into one with a smaller id.
abbrev pub IsDescending : Dict String → Type 0
IsDescending [] = Unit
IsDescending ((loser, winner) ∷ merged_into) =
    (lt_text winner loser ≡ true) × IsDescending merged_into

-- the keys that are not after an id
count_upto : Dict String → String → ℕ
count_upto [] gid = 0
count_upto ((k, v) ∷ d) gid =
    let rest = count_upto d gid in if lt_text gid k then rest else suc rest

count_upto-length : (d : Dict String) (gid : String) → count_upto d gid ≤ length d
unfolding count_upto
count_upto-length [] gid = omega arith
count_upto-length ((k, v) ∷ d) gid = let rest = count_upto-length d gid in ground arith

count_upto_mono :
    (d : Dict String) (a b : String) → lt_text a b ≡ true → count_upto d a ≤ count_upto d b
unfolding count_upto
count_upto_mono [] a b h = omega arith
count_upto_mono ((k, v) ∷ d) a b h =
    let rest = count_upto_mono d a b h in let trans = lt_text_trans a b k in ground arith

get-here :
    {V : Type 0} (k : String) (v : V) (d : Dict V) (j : String)
    → k == j ≡ true
    → get ((k, v) ∷ d) j ≡ some v
get-here k v d j h = rw h refl

get-later :
    {V : Type 0} (k : String) (v : V) (d : Dict V) (j : String)
    → k == j ≡ false
    → get ((k, v) ∷ d) j ≡ get d j
get-later k v d j h = rw h refl

first_step :
    (v k : String) (d : Dict String) (a b : String)
    → lt_text v k ≡ true
    → some v ≡ some a
    → k ≡ b
    → (lt_text a b ≡ true)
      × ((if lt_text a k then count_upto d a else suc (count_upto d a))
          < (if lt_text b k then count_upto d b else suc (count_upto d b)))
first_step v k d a b down found here =
    let below : lt_text a b ≡ true = ground arith in
    let mono = count_upto_mono d a b below in let self = lt_text_irrefl b in (below, ground arith)

-- a step to another group leaves fewer keys
count_upto-step :
    (d : Dict String) (a b : String)
    → IsDescending d
    → get d b ≡ some a
    → (lt_text a b ≡ true) × (count_upto d a < count_upto d b)
unfolding count_upto
count_upto-step [] a b down e = absurd (cc)
count_upto-step ((k, v) ∷ d) a b down e = elim (Bool-cases (k == b)) [
  | inl same ↦
      let here = (eq_iff k b).0 same in
      let found : some v ≡ some a = rw (sym (get-here k v d b same)) e in
      first_step v k d a b down.0 found here
  | inr other ↦
      let (below, fewer) = count_upto-step d a b down.1 (rw (sym (get-later k v d b other)) e) in
      let trans = lt_text_trans a b k in (below, ground arith)
]

-- the end of the chain of merges that begins at a group
pub data Leads (d : Dict String) : String → String → Type 0 where
  stop : (gid : String) → get d gid ≡ none → Leads d gid gid
  go :
      (gid : String) {next_gid root : String}
      → get d gid ≡ some next_gid
      → Leads d next_gid root
      → Leads d gid root

resolve_on-Leads :
    (fuel : ℕ) (d : Dict String) (gid : String)
    → IsDescending d
    → count_upto d gid ≤ fuel
    → Leads d gid (resolve_on fuel d gid)
unfolding resolve_on
resolve_on-Leads zero d gid down enough = elim (Option-cases (get d gid)) [
  | inl e ↦ stop gid e
  | inr (n, e) ↦ absurd (let step = count_upto-step d n gid down e in omega arith)
]
resolve_on-Leads (suc fuel) d gid down enough = elim (Option-cases (get d gid)) [
  | inl e ↦ rw (e, resolve_on) (stop gid e)
  | inr (n, e) ↦
      let step = count_upto-step d n gid down e in
      rw (e, resolve_on) (go gid e (resolve_on-Leads fuel d n down (omega arith)))
]

-- The loop of `_resolve` ends, at the end of the chain.
pub resolve-Leads : (d : Dict String) (gid : String) → IsDescending d → Leads d gid (resolve d gid)
unfolding resolve
resolve-Leads d gid down = resolve_on-Leads (length d) d gid down (count_upto-length d gid)

pub Leads-root : {d : Dict String} {gid root : String} → Leads d gid root → get d root ≡ none
Leads-root (stop gid e) = e
Leads-root (go gid e l) = Leads-root l

pub Leads-unique : {d : Dict String} {gid a b : String} → Leads d gid a → Leads d gid b → a ≡ b
Leads-unique (stop gid e) (stop _ f) = refl
Leads-unique (stop gid e) (go _ f m) = absurd (cc)
Leads-unique (go gid e l) (stop _ f) = absurd (cc)
Leads-unique {d} (go gid {next_gid = n} e l) (go _ {next_gid = k} {root = b} f m) =
    let same : n ≡ k = some-injective (sym e ∙ f) in Leads-unique l (rw same m)

-- A group that was merged leads to one with a smaller id.
pub Leads-descends :
    {d : Dict String} {gid root : String}
    → IsDescending d
    → Leads d gid root
    → (root ≡ gid) ⊎ (lt_text root gid ≡ true)
Leads-descends down (stop gid e) = inl refl
Leads-descends {d} down (go gid {next_gid = n} {root = root} e l) =
    let step = count_upto-step d n gid down e in
    elim (Leads-descends down l) [
      | inl same ↦ inr (rw same step.0)
      | inr below ↦ inr (lt_text_trans root n gid below step.0)
    ]
