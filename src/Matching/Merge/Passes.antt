-- ===== src/Matching/Merge/Passes.antt =====
-- What the whole pass merges, and where it moves the members of the merged groups.
use imperecta.Base.{
  if-Has, ℕ, zero, suc, ◌<◌, String, ◌≡◌, refl, Bool, true, false, not, ◌||◌, ◌==◌, eq_iff, eq_refl,
  ltb, sym, none, inl, inr, has-get, List, [], ◌∷◌, ◌++◌, map, elem, keys, length, lt_text, Dict,
  get, has, All, arith,
}
use imperecta.Matching.Merge.{
  Keyed, Move, MergeStats, resolve, merge_pair, merge_window, merge_keyed, moves_of, sort_keyed,
  title_merges, run_title_merge_pass,
}
use imperecta.Matching.Merge.Forest.{IsDescending, Leads-root, Leads-descends, resolve-Leads}
use imperecta.Matching.Merge.Pairs.{
  Same, merge_pair-Merged, Merged-IsDescending, Merged-Same, Merged-joins,
}

||-true : (b : Bool) → (b || true) ≡ true
||-true true = refl
||-true false = refl

module _ (similar : Keyed → Keyed → Bool) where
  merge_window-IsDescending :
      (window : ℕ) (a : Keyed) (keyed : List Keyed) (d : Dict String)
      → IsDescending d
      → IsDescending (merge_window similar window a keyed d)
  unfolding merge_window
  merge_window-IsDescending zero a keyed d down = down
  merge_window-IsDescending (suc window) a [] d down = down
  merge_window-IsDescending (suc window) a (b ∷ keyed) d down =
      if-Has IsDescending (not (b.type_key == a.type_key)) down (
        merge_window-IsDescending window a keyed (merge_pair similar a b d)
          (Merged-IsDescending similar down (merge_pair-Merged similar a b d down)))

  merge_keyed-IsDescending :
      (keyed : List Keyed) (d : Dict String)
      → IsDescending d
      → IsDescending (merge_keyed similar keyed d)
  unfolding merge_keyed
  merge_keyed-IsDescending [] d down = down
  merge_keyed-IsDescending (a ∷ keyed) d down =
      merge_keyed-IsDescending keyed _ (merge_window-IsDescending 3 a keyed d down)

  merge_window-Same :
      (window : ℕ) (a : Keyed) (keyed : List Keyed) (d : Dict String) (x y : String)
      → IsDescending d
      → Same d x y
      → Same (merge_window similar window a keyed d) x y
  unfolding merge_window
  merge_window-Same zero a keyed d x y down same = same
  merge_window-Same (suc window) a [] d x y down same = same
  merge_window-Same (suc window) a (b ∷ keyed) d x y down same =
      let merged = merge_pair-Merged similar a b d down in
      if-Has (λ e. Same e x y) (not (b.type_key == a.type_key)) same
        (merge_window-Same window a keyed (merge_pair similar a b d) x y
          (Merged-IsDescending similar down merged) (Merged-Same similar x y down merged same))

  merge_keyed-Same :
      (keyed : List Keyed) (d : Dict String) (x y : String)
      → IsDescending d
      → Same d x y
      → Same (merge_keyed similar keyed d) x y
  unfolding merge_keyed
  merge_keyed-Same [] d x y down same = same
  merge_keyed-Same (a ∷ keyed) d x y down same =
      merge_keyed-Same keyed _ x y (merge_window-IsDescending 3 a keyed d down)
        (merge_window-Same 3 a keyed d x y down same)

  merge_window-joins :
      (window : ℕ) (a b : Keyed) (between after : List Keyed) (d : Dict String)
      → IsDescending d
      → length between < window
      → All (λ c. c.type_key ≡ a.type_key) between
      → b.type_key ≡ a.type_key
      → similar a b ≡ true
      → Same (merge_window similar window a (between ++ b ∷ after) d) a.gid b.gid
  unfolding merge_window
  merge_window-joins zero a b between after d down near types type h = absurd (omega arith)
  merge_window-joins (suc window) a b [] after d down near types type h =
      let merged = merge_pair-Merged similar a b d down in
      rw ((eq_iff b.type_key a.type_key).1 type) (
        merge_window-Same window a after (merge_pair similar a b d) a.gid b.gid
          (Merged-IsDescending similar down merged) (Merged-joins similar down h merged))
  merge_window-joins (suc window) a b (c ∷ between) after d down near types type h =
      let merged = merge_pair-Merged similar a c d down in
      rw ((eq_iff c.type_key a.type_key).1 types.0) (
        merge_window-joins window a b between after (merge_pair similar a c d)
          (Merged-IsDescending similar down merged) (omega arith) types.1 type h)

  -- Two groups that are similar, of one type, and fewer than three apart in the sorted list end in
  -- one group, whatever was merged before.
  pub merge_keyed-joins :
      (before : List Keyed) (a : Keyed) (between : List Keyed) (b : Keyed) (after : List Keyed)
      (d : Dict String)
      → IsDescending d
      → length between < 3
      → All (λ c. c.type_key ≡ a.type_key) between
      → b.type_key ≡ a.type_key
      → similar a b ≡ true
      → Same (merge_keyed similar (before ++ a ∷ between ++ b ∷ after) d) a.gid b.gid
  unfolding merge_keyed
  merge_keyed-joins [] a between b after d down near types type h =
      merge_keyed-Same (between ++ b ∷ after) _ a.gid b.gid
        (merge_window-IsDescending 3 a (between ++ b ∷ after) d down)
        (merge_window-joins 3 a b between after d down near types type h)
  merge_keyed-joins (c ∷ before) a between b after d down near types type h =
      merge_keyed-joins before a between b after _
        (merge_window-IsDescending 3 c (before ++ a ∷ between ++ b ∷ after) d down) near types type
        h

-- Two groups that are similar, of one type, and fewer than three apart in the sorted list of groups
-- end in one group.
pub title_merges-joins :
    (similar : Keyed → Keyed → Bool) (groups before : List Keyed) (a : Keyed) (between : List Keyed)
    (b : Keyed) (after : List Keyed)
    → sort_keyed groups ≡ before ++ a ∷ between ++ b ∷ after
    → length between < 3
    → All (λ c. c.type_key ≡ a.type_key) between
    → b.type_key ≡ a.type_key
    → similar a b ≡ true
    → Same (title_merges similar groups) a.gid b.gid
unfolding title_merges
title_merges-joins similar groups before a between b after e near types type h =
    rw e (merge_keyed-joins similar before a between b after [] tt near types type h)

-- A move takes a member of a merged group to a group that is not merged itself and has a smaller id.
pub record IsMove (member_ids : String → List String) (d : Dict String) (m : Move) : Type 0 where
  pub loser : String
  pub merged : has d loser ≡ true
  pub member : elem m.id (member_ids loser) ≡ true
  pub unmerged : get d m.match_group_id ≡ none
  pub smaller : lt_text m.match_group_id loser ≡ true

All-append : (P : Move → Type 0) (xs ys : List Move) → All P xs → All P ys → All P (xs ++ ys)
All-append P [] ys p q = q
All-append P (x ∷ xs) ys p q = (p.0, All-append P xs ys p.1 q)

module _ (member_ids : String → List String) (d : Dict String) (down : IsDescending d) where
  not_root :
      (loser : String) {root : String} → has d loser ≡ true → root ≡ loser → get d root ≡ none → ⊥
  not_root loser known same free =
      let absent : get d loser ≡ none = rw (sym same) free in
      let present = has-get d loser in ground arith

  merged-IsMove :
      (loser : String) (id : String)
      → has d loser ≡ true
      → elem id (member_ids loser) ≡ true
      → IsMove member_ids d (record { id = id; match_group_id = resolve d loser })
  merged-IsMove loser id known member =
      let leads = resolve-Leads d loser down in
      record {
        loser = loser;
        merged = known;
        member = member;
        unmerged = Leads-root leads;
        smaller = elim (Leads-descends down leads) [
          | inl same ↦ absurd (not_root loser known same (Leads-root leads))
          | inr below ↦ below
        ];
      }

  members-All :
      (loser : String) (ids : List String)
      → has d loser ≡ true
      → ((id : String) → elem id ids ≡ true → elem id (member_ids loser) ≡ true)
      → All
          (IsMove member_ids d)
          (map (λ id. record { id = id; match_group_id = resolve d loser }) ids)
  members-All loser [] known within = tt
  members-All loser (id ∷ ids) known within = (
    merged-IsMove loser id known (within id (rw (eq_refl id) refl)),
    members-All loser ids known
        λ other found. within other (rw (found, ||-true (id == other)) refl),
  )

  moves_of-All :
      (losers : List String)
      → ((loser : String) → elem loser losers ≡ true → has d loser ≡ true)
      → All (IsMove member_ids d) (moves_of member_ids d losers)
  unfolding moves_of
  moves_of-All [] within = tt
  moves_of-All (loser ∷ losers) within =
      All-append (IsMove member_ids d) _ _
        (members-All loser (member_ids loser) (within loser (rw (eq_refl loser) refl))
          λ id found. found)
        (moves_of-All losers
          λ other found. within other (rw (found, ||-true (loser == other)) refl))

-- Every move that the pass writes takes a member of a merged group to a group that is not merged
-- itself and has a smaller id.
pub run_title_merge_pass-moves :
    (similar : Keyed → Keyed → Bool) (member_ids : String → List String) (groups : List Keyed)
    → All
        (IsMove member_ids (title_merges similar groups))
        (run_title_merge_pass similar member_ids groups).payloads
unfolding run_title_merge_pass title_merges
run_title_merge_pass-moves similar member_ids groups =
    if-Has
      (λ (stats : MergeStats). All (IsMove member_ids (title_merges similar groups)) stats.payloads)
      (ltb (length groups) 2) tt
      (moves_of-All member_ids (title_merges similar groups)
        (merge_keyed-IsDescending similar (sort_keyed groups) [] tt)
        (keys (title_merges similar groups)) λ loser found. found)
