-- ===== src/Completion/Seeds.antt =====
-- The merged seeds, looked up by marketplace.
use imperecta.Base.{
  String, ◌≡◌, refl, sym, ◌∙◌, false, not, ◌||◌, Option, none, some, List, [], ◌∷◌, ◌++◌, arith,
  elem, keep, eq_iff, get-absent, Dict, get, keys, if◌then◌else◌, Bool-cases, Option-cases, inl,
  inr,
}
use mathlib.Core.Path.{subst}
use imperecta.Doors.Columns.{elem-keep}
use imperecta.Completion.{Seed, merge_seed, merge_ids, merge_phase_seeds}

elem-append : (x : String) (xs ys : List String) → elem x (xs ++ ys) ≡ (elem x xs || elem x ys)
elem-append x [] ys = refl
elem-append x (z ∷ xs) ys = ground (arith, elem-append x xs ys)

module _ (discovery_seed scrape_seed : Dict Seed) where
  abbrev merged_at : String → Option Seed
  merged_at m = merge_seed (get discovery_seed m) (get scrape_seed m)

  get-merge_ids :
      (ids : List String) (m : String)
      → get (merge_ids discovery_seed scrape_seed ids) m
        ≡ (if elem m ids then merged_at m else none)
  unfolding merge_ids
  get-merge_ids [] m = refl
  get-merge_ids (i ∷ ids) m =
      let rest = get-merge_ids ids m in
      let same = eq_iff i m in
      elim (Option-cases (merge_seed (get discovery_seed i) (get scrape_seed i))) [
        | inl e ↦
            let at : i ≡ m → merged_at m ≡ none = λ q. subst (λ k. merged_at k ≡ none) q e in
            rw (e, merge_ids) (ground arith)
        | inr (s, e) ↦
            let at : i ≡ m → merged_at m ≡ some s = λ q. subst (λ k. merged_at k ≡ some s) q e in
            rw (e, merge_ids) (ground arith)
      ]

  abbrev all_ids : List String
  all_ids = keys discovery_seed ++ keep (λ k. not (elem k (keys discovery_seed))) (keys scrape_seed)

  absent :
      (m : String)
      → elem m all_ids ≡ false
      → (get discovery_seed m ≡ none) × (get scrape_seed m ≡ none)
  absent m h =
      let split =
        elem-append m (keys discovery_seed)
          (keep (λ k. not (elem k (keys discovery_seed))) (keys scrape_seed)) in
      let kept = elem-keep (λ k. not (elem k (keys discovery_seed))) m (keys scrape_seed) in
      (get-absent discovery_seed m (ground arith), get-absent scrape_seed m (ground arith))

  merge_seed-none : merge_seed none none ≡ none
  unfolding merge_seed
  merge_seed-none = refl

  -- In the merged seeds, a marketplace that both phases know keeps the discovery's seed with the
  -- status of the scrape; one that a single phase knows keeps that phase's seed; any other is absent.
  pub get-merge_phase_seeds :
      (m : String)
      → get (merge_phase_seeds discovery_seed scrape_seed) m
        ≡ merge_seed (get discovery_seed m) (get scrape_seed m)
  unfolding merge_phase_seeds
  get-merge_phase_seeds m = elim (Bool-cases (elem m all_ids)) [
    | inl e ↦ get-merge_ids all_ids m ∙ rw e refl
    | inr e ↦
        let (no_d, no_s) = absent m e in
        get-merge_ids all_ids m ∙ rw (e, no_d, no_s) (sym merge_seed-none)
  ]
