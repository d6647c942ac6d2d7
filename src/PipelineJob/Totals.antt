-- ===== src/PipelineJob/Totals.antt =====
-- The marketplaces of a run, split into those with a seed and the others: a bucket is summed over
-- both without a gap or an overlap.
use imperecta.Base.{
  ℕ, ◌+◌, String, ◌≡◌, refl, sym, ap, Bool, true, false, not, ◌&&◌, ◌||◌, ◌==◌, none, List, [], ◌∷◌,
  arith, elem, eq_iff, get-absent, or_else, Dict, get, has, keys, insert, if◌then◌else◌, Bool-cases,
  inl, inr,
}
use mathlib.Core.Path.{subst}
use imperecta.Outcomes.{
  OutcomeBuckets, Bucket, LogRow, in_bucket, empty_outcome_buckets, aggregate_marketplace_log_rows,
  group_rows, finalize_all,
}
use imperecta.Outcomes.Conservation.{summed, in_bucket-empty}
use imperecta.Completion.{Seed}

abbrev pub distinct : List String → Bool
distinct [] = true
distinct (x ∷ xs) = not (elem x xs) && distinct xs

module _ (x : Bucket) where
  -- a bucket, summed over the marketplaces that have a seed
  unfoldable pub seeded : Dict OutcomeBuckets → Dict Seed → ℕ
  seeded stats [] = 0
  seeded stats ((m, s) ∷ seeds) =
      in_bucket x (or_else (get stats m) empty_outcome_buckets) + seeded stats seeds

  -- and over the others
  unfoldable pub unseeded : Dict OutcomeBuckets → List String → ℕ
  unseeded [] ks = 0
  unseeded ((m, b) ∷ stats) ks =
      if elem m ks then unseeded stats ks else in_bucket x b + unseeded stats ks

  seeded-empty : (seeds : Dict Seed) → seeded [] seeds ≡ 0
  unfolding seeded
  seeded-empty [] = refl
  seeded-empty ((m, s) ∷ seeds) =
      let e = in_bucket-empty x in let rest = seeded-empty seeds in omega arith

  -- one more marketplace in the log counts once if it has a seed
  seeded-cons :
      (m : String) (b : OutcomeBuckets) (stats : Dict OutcomeBuckets) (seeds : Dict Seed)
      → has stats m ≡ false
      → distinct (keys seeds) ≡ true
      → seeded ((m, b) ∷ stats) seeds
        ≡ (if elem m (keys seeds) then in_bucket x b else 0) + seeded stats seeds
  unfolding seeded
  seeded-cons m b stats [] fresh d = refl
  seeded-cons m b stats ((k, s) ∷ seeds) fresh d =
      let rest = seeded-cons m b stats seeds fresh (ground arith) in
      let back = eq_iff k m in
      let forth = eq_iff m k in
      elim (Bool-cases (m == k)) [
        | inl e ↦
            let q : m ≡ k = forth.0 e in
            let e' : k == m ≡ true = back.1 (sym q) in
            let none_k : get stats k ≡ none =
              subst (λ j. get stats j ≡ none) q (get-absent stats m fresh) in
            let other : elem m (keys seeds) ≡ false =
              subst (λ j. elem j (keys seeds) ≡ false) (sym q) (ground arith) in
            let zero_empty = in_bucket-empty x in
            rw (e, e', none_k) (omega (arith, rw other at rest))
        | inr e ↦ let e' : k == m ≡ false = ground arith in rw (e, e') (omega arith)
      ]

  pub seeded-unseeded :
      (stats : Dict OutcomeBuckets) (seeds : Dict Seed)
      → distinct (keys stats) ≡ true
      → distinct (keys seeds) ≡ true
      → seeded stats seeds + unseeded stats (keys seeds) ≡ summed x stats
  unfolding unseeded summed
  seeded-unseeded [] seeds ds d = let e = seeded-empty seeds in omega arith
  seeded-unseeded ((m, b) ∷ stats) seeds ds d =
      let rest = seeded-unseeded stats seeds (ground arith) d in
      let step = seeded-cons m b stats seeds (ground arith) d in
      elim (Bool-cases (elem m (keys seeds))) [
        | inl e ↦ rw e (omega (arith, rw e at step))
        | inr e ↦ rw e (omega (arith, rw e at step))
      ]

-- The keys of the grouped rows are distinct.
elem-insert :
    (d : Dict OutcomeBuckets) (k m : String) (b : OutcomeBuckets)
    → elem m (keys (insert d k b)) ≡ (k == m || elem m (keys d))
elem-insert [] k m b = refl
elem-insert ((j, c) ∷ d) k m b =
    let rest = elem-insert d k m b in let jk = eq_iff j k in ground arith

distinct-insert :
    (d : Dict OutcomeBuckets) (k : String) (b : OutcomeBuckets)
    → distinct (keys d) ≡ true
    → distinct (keys (insert d k b)) ≡ true
distinct-insert [] k b h = refl
distinct-insert ((j, c) ∷ d) k b h =
    let rest = distinct-insert d k b (ground arith) in
    let others = elem-insert d k j b in let jk = eq_iff j k in let kj = eq_iff k j in ground arith

distinct-group :
    (rows : List LogRow) (d : Dict OutcomeBuckets)
    → distinct (keys d) ≡ true
    → distinct (keys (group_rows rows d)) ≡ true
unfolding group_rows
distinct-group [] d h = h
distinct-group (row ∷ rows) d h = distinct-group rows _ (distinct-insert d row.marketplace_id _ h)

keys-finalize : (d : Dict OutcomeBuckets) → keys (finalize_all d) ≡ keys d
unfolding finalize_all
keys-finalize [] = refl
keys-finalize ((m, b) ∷ d) = ap (λ ks. m ∷ ks) (keys-finalize d)

pub distinct-aggregate :
    (rows : List LogRow) → distinct (keys (aggregate_marketplace_log_rows rows)) ≡ true
unfolding aggregate_marketplace_log_rows
distinct-aggregate rows = rw (keys-finalize (group_rows rows [])) (distinct-group rows [] refl)
