-- ===== src/Matching/Merge.antt =====
-- `run_title_merge_pass` of backend/app/modules/matching/engine.py: groups of similar titles are
-- merged into the group with the smaller id. The score of two titles and the ids of a group's
-- members are arguments; the score stands for `score_titles(…) >= TITLE_SIM_THRESHOLD`. The theorems
-- are in `Forest` and `Pairs`.
pub mod Forest
pub mod Pairs
pub mod Passes
use imperecta.Base.{
  ℕ, zero, suc, ltb, String, Bool, true, false, not, ◌&&◌, ◌||◌, ◌==◌, Option, none, some, List, [],
  ◌∷◌, ◌++◌, map, length, keys, lt_text, Dict, get, has, insert, if◌then◌else◌,
}

abbrev pub title_merge_window : ℕ
title_merge_window = 3

-- a group: its type, its token key, its tokens and its id
pub record Keyed : Type 0 where
  pub type_key : String
  pub token_key : String
  pub tokens : List String
  pub gid : String

-- `key=lambda item: (item[0], item[1], item[3])`
unfoldable pub keyed_lt : Keyed → Keyed → Bool
keyed_lt a b =
    lt_text a.type_key b.type_key
    || (a.type_key == b.type_key
        && (lt_text a.token_key b.token_key || (a.token_key == b.token_key && lt_text a.gid b.gid)))

unfoldable pub insert_keyed : Keyed → List Keyed → List Keyed
insert_keyed a [] = a ∷ []
insert_keyed a (b ∷ keyed) =
    let rest = insert_keyed a keyed in if keyed_lt b a then b ∷ rest else a ∷ b ∷ keyed

-- `sorted(…)`
unfoldable pub sort_keyed : List Keyed → List Keyed
sort_keyed [] = []
sort_keyed (a ∷ keyed) = insert_keyed a (sort_keyed keyed)

-- the loop of `_resolve`, on fuel
unfoldable pub resolve_on : ℕ → Dict String → String → String
resolve_on zero merged_into gid = gid
resolve_on (suc fuel) merged_into gid = elim (get merged_into gid) [
  | none ↦ gid
  | some next_gid ↦ resolve_on fuel merged_into next_gid
]

unfoldable pub resolve : Dict String → String → String
resolve merged_into gid = resolve_on (length merged_into) merged_into gid

-- one pair of the two loops
unfoldable pub merge_pair : (Keyed → Keyed → Bool) → Keyed → Keyed → Dict String → Dict String
merge_pair similar a b merged_into =
    let ra = resolve merged_into a.gid in
    let rb = resolve merged_into b.gid in
    if ra == rb
    then merged_into
    else if similar a b
    then (if lt_text ra rb then insert merged_into rb ra else insert merged_into ra rb)
    else merged_into

-- the inner loop, over the rest of the window
unfoldable pub merge_window :
    (Keyed → Keyed → Bool) → ℕ → Keyed → List Keyed → Dict String → Dict String
merge_window similar zero a keyed merged_into = merged_into
merge_window similar (suc window) a [] merged_into = merged_into
merge_window similar (suc window) a (b ∷ keyed) merged_into =
    let merged = merge_window similar window a keyed (merge_pair similar a b merged_into) in
    if not (b.type_key == a.type_key) then merged_into else merged

-- the outer loop
unfoldable pub merge_keyed : (Keyed → Keyed → Bool) → List Keyed → Dict String → Dict String
merge_keyed similar [] merged_into = merged_into
merge_keyed similar (a ∷ keyed) merged_into =
    merge_keyed similar keyed (merge_window similar title_merge_window a keyed merged_into)

-- the part of a payload that changes: the product, and the group that it goes to
pub record Move : Type 0 where
  pub id : String
  pub match_group_id : String

unfoldable pub moves_of : (String → List String) → Dict String → List String → List Move
moves_of member_ids merged_into [] = []
moves_of member_ids merged_into (loser ∷ losers) =
    map (λ product_id. record { id = product_id; match_group_id = resolve merged_into loser })
      (member_ids loser)
    ++ moves_of member_ids merged_into losers

pub record MergeStats : Type 0 where
  pub title_groups : ℕ
  pub merged_groups : ℕ
  pub moved_rows : ℕ
  pub payloads : List Move

unfoldable pub title_merges : (Keyed → Keyed → Bool) → List Keyed → Dict String
title_merges similar groups = merge_keyed similar (sort_keyed groups) []

abbrev pub too_few : ℕ → MergeStats
too_few n = record { title_groups = n; merged_groups = 0; moved_rows = 0; payloads = [] }

-- the result, with the payloads that are written
unfoldable pub run_title_merge_pass :
    (Keyed → Keyed → Bool) → (String → List String) → List Keyed → MergeStats
run_title_merge_pass similar member_ids groups =
    let merged_into = title_merges similar groups in
    let payloads = moves_of member_ids merged_into (keys merged_into) in
    if ltb (length groups) 2 then too_few (length groups) else record {
      title_groups = length groups;
      merged_groups = length merged_into;
      moved_rows = length payloads;
      payloads = payloads;
    }
