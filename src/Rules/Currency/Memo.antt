-- ===== src/Rules/Currency/Memo.antt =====
-- The memo of the currency resolver changes no answer.
use imperecta.Base.{
  String, ◌≡◌, some, List, arith, eq_iff, get, get-insert, Option, Option-cases, inl, inr,
}
use imperecta.Rules.Currency.{Marketplaces, Cache, whitelist, whitelist_for, accepts, matches}

module _ (db : Marketplaces) where
  -- every entry of the memo is what would be computed anew
  pub record IsFresh (cache : Cache) : Type 0 where
    pub at_key :
        (id : String) (allowed : List String)
        → get cache id ≡ some allowed
        → allowed ≡ whitelist db id

  whitelist_for-value :
      (id : String) (cache : Cache)
      → IsFresh cache
      → (whitelist_for db id cache).0 ≡ whitelist db id
  unfolding whitelist_for
  whitelist_for-value id cache fresh = elim (Option-cases (get cache id)) [
    | inl e ↦ rw (e, whitelist_for)
    | inr (allowed, e) ↦ rw (e, whitelist_for) (fresh.at_key id allowed e)
  ]

  whitelist_for-IsFresh :
      (id : String) (cache : Cache) → IsFresh cache → IsFresh (whitelist_for db id cache).1
  unfolding whitelist_for
  whitelist_for-IsFresh id cache fresh = elim (Option-cases (get cache id)) [
    | inl e ↦
        rw (e, whitelist_for)
          (record {
            at_key = λ j allowed h. ground (
              arith,
              get-insert cache id j (whitelist db id),
              eq_iff id j,
              fresh.at_key j allowed,
            );
          })
    | inr (allowed, e) ↦ rw (e, whitelist_for) fresh
  ]

  -- From a memo whose entries are all right, `matches` gives the answer of a resolver without a
  -- memo, and leaves a memo whose entries are all right.
  pub matches-whitelist :
      (id : String) (currency : Option String) (cache : Cache)
      → IsFresh cache
      → ((matches db id currency cache).0 ≡ accepts db (whitelist db id) currency)
        × IsFresh (matches db id currency cache).1
  unfolding matches
  matches-whitelist id currency cache fresh =
      (rw (whitelist_for-value id cache fresh), whitelist_for-IsFresh id cache fresh)
