-- ===== src/Matching/Merge/Pairs.antt =====
-- The dictionary of merged groups as a union of the pairs that are similar.
use imperecta.Base.{
  String, ◌≡◌, ◌⊎◌, refl, sym, ◌∙◌, Bool, true, false, ◌==◌, eq_iff, none, some, Bool-cases, inl,
  inr, [], ◌∷◌, lt_text, lt_text_total, lt_text_irrefl, Dict, get, insert, get-insert,
  if◌then◌else◌, arith,
}
use imperecta.Matching.Merge.{Keyed, resolve, merge_pair}
use imperecta.Matching.Merge.Forest.{
  IsDescending, Leads, stop, go, resolve-Leads, Leads-root, Leads-unique,
}

flip : (s t : String) → s == t ≡ false → t == s ≡ false
flip s t h = let a = eq_iff s t in let b = eq_iff t s in ground arith

apart_lt : (winner loser : String) → lt_text winner loser ≡ true → loser == winner ≡ false
apart_lt winner loser h =
    let self = lt_text_irrefl winner in let same = eq_iff loser winner in ground arith

insert-IsDescending :
    (d : Dict String) (loser winner : String)
    → lt_text winner loser ≡ true
    → IsDescending d
    → IsDescending (insert d loser winner)
insert-IsDescending [] loser winner h down = (h, tt)
insert-IsDescending ((k, v) ∷ d) loser winner h down = elim (Bool-cases (k == loser)) [
  | inl e ↦ let same = (eq_iff k loser).0 e in rw e (rw same h, down.1)
  | inr e ↦ rw e (down.0, insert-IsDescending d loser winner h down.1)
]

get_new :
    (d : Dict String) (loser gid winner : String)
    → loser ≡ gid
    → get (insert d loser winner) gid ≡ some winner
get_new d loser gid winner here =
    get-insert d loser gid winner ∙ rw ((eq_iff loser gid).1 here) refl

get_old :
    (d : Dict String) (loser gid winner : String)
    → loser == gid ≡ false
    → get (insert d loser winner) gid ≡ get d gid
get_old d loser gid winner apart = get-insert d loser gid winner ∙ rw apart refl

apart_of :
    (d : Dict String) (loser gid : String) {n : String}
    → get d loser ≡ none
    → get d gid ≡ some n
    → loser == gid ≡ false
apart_of d loser gid free e = elim (Bool-cases (loser == gid)) [
  | inl same ↦ let here = (eq_iff loser gid).0 same in absurd (cc)
  | inr apart ↦ apart
]

-- after one more merge of two roots
insert-Leads :
    {d : Dict String} {gid root : String} (loser winner : String)
    → get d loser ≡ none
    → get d winner ≡ none
    → loser == winner ≡ false
    → Leads d gid root
    → Leads (insert d loser winner) gid (if root == loser then winner else root)
insert-Leads {d} loser winner free top other (stop gid e) = elim (Bool-cases (gid == loser)) [
  | inl same ↦ rw same (
      go gid (get_new d loser gid winner (sym ((eq_iff gid loser).0 same)))
        (stop winner (get_old d loser winner winner other ∙ top)))
  | inr apart ↦ rw apart (stop gid (get_old d loser gid winner (flip gid loser apart) ∙ e))
]
insert-Leads {d} loser winner free top other (go gid {next_gid = n} e l) =
    go gid (get_old d loser gid winner (apart_of d loser gid free e) ∙ e)
      (insert-Leads loser winner free top other l)

-- one more merge of two roots, seen by `resolve`
resolve-insert :
    (d : Dict String) (loser winner gid : String)
    → IsDescending d
    → get d loser ≡ none
    → get d winner ≡ none
    → lt_text winner loser ≡ true
    → resolve (insert d loser winner) gid
      ≡ (if resolve d gid == loser then winner else resolve d gid)
resolve-insert d loser winner gid down free top below =
    Leads-unique
      (resolve-Leads (insert d loser winner) gid (insert-IsDescending d loser winner below down))
      (insert-Leads loser winner free top (apart_lt winner loser below) (resolve-Leads d gid down))

root-absent : (d : Dict String) (gid : String) → IsDescending d → get d (resolve d gid) ≡ none
root-absent d gid down = Leads-root (resolve-Leads d gid down)

-- the two groups are merged, or are the same
abbrev pub Same : Dict String → String → String → Type 0
Same d a b = resolve d a ≡ resolve d b

insert-Same :
    (d : Dict String) (loser winner a b : String)
    → IsDescending d
    → get d loser ≡ none
    → get d winner ≡ none
    → lt_text winner loser ≡ true
    → Same d a b
    → Same (insert d loser winner) a b
insert-Same d loser winner a b down free top below same =
    resolve-insert d loser winner a down free top below
    ∙ rw same refl
    ∙ sym (resolve-insert d loser winner b down free top below)

either : (b : Bool) (w x : String) → x ≡ w → (if b then w else x) ≡ w
either true w x e = refl
either false w x e = e

first_branch : (b : Bool) (w x : String) → b ≡ true → (if b then w else x) ≡ w
first_branch true w x e = refl
first_branch false w x e = absurd (cc)

insert-joins :
    (d : Dict String) (loser winner a b : String)
    → IsDescending d
    → get d loser ≡ none
    → get d winner ≡ none
    → lt_text winner loser ≡ true
    → resolve d a ≡ loser
    → resolve d b ≡ winner
    → Same (insert d loser winner) a b
insert-joins d loser winner a b down free top below ra rb =
    resolve-insert d loser winner a down free top below
    ∙ first_branch _ winner _ ((eq_iff (resolve d a) loser).1 ra)
    ∙ sym (either _ winner _ rb)
    ∙ sym (resolve-insert d loser winner b down free top below)

module _ (similar : Keyed → Keyed → Bool) where
  -- what one pair does to the dictionary
  pub data Merged (a b : Keyed) (d : Dict String) : Dict String → Type 0 where
    kept : Same d a.gid b.gid → Merged a b d d
    unlike : similar a b ≡ false → Merged a b d d
    joined :
        (loser winner : String)
        → get d loser ≡ none
        → get d winner ≡ none
        → lt_text winner loser ≡ true
        → ((resolve d a.gid ≡ loser) × (resolve d b.gid ≡ winner))
          ⊎ ((resolve d b.gid ≡ loser) × (resolve d a.gid ≡ winner))
        → Merged a b d (insert d loser winner)

  pub merge_pair-Merged :
      (a b : Keyed) (d : Dict String) → IsDescending d → Merged a b d (merge_pair similar a b d)
  unfolding merge_pair
  merge_pair-Merged a b d down =
      let ra = resolve d a.gid in
      let rb = resolve d b.gid in
      let ea = root-absent d a.gid down in
      let eb = root-absent d b.gid down in
      elim (Bool-cases (ra == rb)) [
        | inl e ↦ rw e (kept ((eq_iff ra rb).0 e))
        | inr n ↦ elim (Bool-cases (similar a b)) [
          | inr u ↦ rw (n, u) (unlike u)
          | inl s ↦ elim (Bool-cases (lt_text ra rb)) [
            | inl h ↦ rw (n, s, h) (joined rb ra eb ea h (inr (refl, refl)))
            | inr h ↦ rw (n, s, h) (joined ra rb ea eb (lt_text_total ra rb n h) (inl (refl, refl)))
          ]
        ]
      ]

  pub Merged-IsDescending :
      {a b : Keyed} {d e : Dict String} → IsDescending d → Merged a b d e → IsDescending e
  Merged-IsDescending down (kept s) = down
  Merged-IsDescending down (unlike u) = down
  Merged-IsDescending {d = d} down (joined loser winner free top below roots) =
      insert-IsDescending d loser winner below down

  pub Merged-Same :
      {a b : Keyed} {d e : Dict String} (x y : String)
      → IsDescending d
      → Merged a b d e
      → Same d x y
      → Same e x y
  Merged-Same x y down (kept s) same = same
  Merged-Same x y down (unlike u) same = same
  Merged-Same {d = d} x y down (joined loser winner free top below roots) same =
      insert-Same d loser winner x y down free top below same

  pub Merged-joins :
      {a b : Keyed} {d e : Dict String}
      → IsDescending d
      → similar a b ≡ true
      → Merged a b d e
      → Same e a.gid b.gid
  Merged-joins down h (kept s) = s
  Merged-joins down h (unlike u) = absurd (cc)
  Merged-joins {a = a} {b = b} {d = d} down h (joined loser winner free top below (inl r)) =
      insert-joins d loser winner a.gid b.gid down free top below r.0 r.1
  Merged-joins {a = a} {b = b} {d = d} down h (joined loser winner free top below (inr r)) =
      sym (insert-joins d loser winner b.gid a.gid down free top below r.0 r.1)
