-- ===== src/Matching/Methods/Writes.antt =====
-- Chunked writes and single writes agree.
use imperecta.Base.{
  ℕ, zero, suc, ◌+◌, ◌≤◌, ◌≡◌, refl, sym, ap, ◌∙◌, Bool, Option, none, some, Option-cases,
  some-injective, List, [], ◌∷◌, length, inl, inr, if_rule, arith,
}
use imperecta.Signing.{SignedRecord}
use imperecta.GateRpc.{Call, call_of, exec_write_record, add_calls, exec_calls, exec_write_records}
use imperecta.Matching.Methods.{
  take, drop, write_chunk_size, and_then, write_singly, write_chunk, write_chunks,
}

drop-length {ℓ} : {A : Type ℓ} (n : ℕ) (xs : List A) → length (drop n xs) ≤ length xs
unfolding drop
drop-length zero xs = omega arith
drop-length (suc n) [] = omega arith
drop-length (suc n) (x ∷ xs) = omega (arith, drop-length n xs)

module _ {Db : Type 0} (exec_write : Call → Db → Option (ℕ × Db))
    (aborts : List SignedRecord → Db → Bool) where
  and_then_assoc :
      (w : ℕ × Db) (f h : Db → ℕ × Db)
      → and_then (and_then w f) h ≡ and_then w (λ db. and_then (f db) h)
  and_then_assoc (n, db) f h =
      let sums : n + (f db).0 + (h (f db).1).0 ≡ n + ((f db).0 + (h (f db).1).0) = omega arith in
      ap (λ k. (k, (h (f db).1).1)) sums

  add_calls-some :
      (count : ℕ) (o : Option (ℕ × Db)) (w : ℕ × Db)
      → add_calls exec_write count o ≡ some w
      → (v : ℕ × Db) × (o ≡ some v) × ((count + v.0, v.1) ≡ w)
  unfolding add_calls
  add_calls-some count none w e = absurd (cc)
  add_calls-some count (some v) w e = (v, refl, some-injective e)

  -- Calls that all succeed do what the single writes of their records do.
  exec_calls-singly :
      (chunk : List SignedRecord) (db : Db) (w : ℕ × Db)
      → exec_calls exec_write chunk db ≡ some w
      → w ≡ write_singly exec_write aborts chunk db
  unfolding exec_calls write_singly exec_write_record
  exec_calls-singly [] db w e = sym (some-injective e)
  exec_calls-singly (signed ∷ chunk) db w e = elim (Option-cases (exec_write (call_of signed) db)) [
    | inl failed ↦ absurd (cc (rw (failed, exec_calls) at e))
    | inr (v, done) ↦
        let (u, later, sums) =
          add_calls-some v.0 (exec_calls exec_write chunk v.1) w (rw (done, exec_calls) at e) in
        let rest = exec_calls-singly chunk v.1 u later in
        rw (done, write_singly, exec_write_record) (sym sums ∙ ap (λ x. (v.0 + x.0, x.1)) rest)
  ]

  exec_write_records-singly :
      (chunk : List SignedRecord) (db : Db) (w : ℕ × Db)
      → exec_write_records exec_write aborts chunk db ≡ some w
      → w ≡ write_singly exec_write aborts chunk db
  unfolding exec_write_records write_singly
  exec_write_records-singly [] db w = λ e. sym (some-injective e)
  exec_write_records-singly (signed ∷ chunk) db w =
      if_rule (λ o. o ≡ some w → w ≡ write_singly exec_write aborts (signed ∷ chunk) db)
        (aborts (signed ∷ chunk) db) none (exec_calls exec_write (signed ∷ chunk) db)
        (λ _ e. absurd (cc)) λ _. exec_calls-singly (signed ∷ chunk) db w

  write_chunk-singly :
      (chunk : List SignedRecord) (db : Db)
      → write_chunk exec_write aborts chunk db ≡ write_singly exec_write aborts chunk db
  unfolding write_chunk
  write_chunk-singly chunk db =
      elim (Option-cases (exec_write_records exec_write aborts chunk db)) [
        | inl e ↦ rw (e, write_chunk) refl
        | inr (w, e) ↦ rw (e, write_chunk) (exec_write_records-singly chunk db w e)
      ]

  write_singly-split :
      (n : ℕ) (xs : List SignedRecord) (db : Db)
      → and_then
          (write_singly exec_write aborts (take n xs) db)
          (write_singly exec_write aborts (drop n xs))
        ≡ write_singly exec_write aborts xs db
  unfolding take drop write_singly
  write_singly-split zero xs db =
      let w = write_singly exec_write aborts xs db in
      let same : 0 + w.0 ≡ w.0 = omega arith in ap (λ k. (k, w.1)) same
  write_singly-split (suc n) [] db = refl
  write_singly-split (suc n) (x ∷ xs) db = elim (Option-cases (exec_write_record exec_write x db)) [
    | inl e ↦ rw (e, write_singly) (write_singly-split n xs db)
    | inr (w, e) ↦
        rw (e, write_singly)
          (and_then_assoc w (write_singly exec_write aborts (take n xs))
              (write_singly exec_write aborts (drop n xs))
            ∙ ap (λ v. (w.0 + v.0, v.1)) (write_singly-split n xs w.1))
  ]

  -- Whatever the SQL function does and whichever statements fail, with commits that succeed, the
  -- writes by chunks leave the database and the count that single writes of all records, one after
  -- the other, leave.
  pub write_chunks-singly :
      (fuel : ℕ) (signed : List SignedRecord) (db : Db)
      → length signed ≤ fuel
      → write_chunks exec_write aborts fuel signed db ≡ write_singly exec_write aborts signed db
  unfolding write_chunks write_singly drop
  write_chunks-singly zero [] db enough = refl
  write_chunks-singly zero (x ∷ signed) db enough = absurd (omega arith)
  write_chunks-singly (suc fuel) [] db enough = refl
  write_chunks-singly (suc fuel) (x ∷ signed) db enough =
      let shorter = drop-length 99 signed in
      let first = write_chunk-singly (take write_chunk_size (x ∷ signed)) db in
      let done = write_singly exec_write aborts (take write_chunk_size (x ∷ signed)) db in
      let rest =
        write_chunks-singly fuel (drop write_chunk_size (x ∷ signed)) done.1 (omega arith) in
      ap
        (λ w. and_then w (write_chunks exec_write aborts fuel (drop write_chunk_size (x ∷ signed))))
        first
      ∙ ap (λ v. (done.0 + v.0, v.1)) rest
      ∙ write_singly-split write_chunk_size (x ∷ signed) db
