-- ===== src/Matching/Methods.antt =====
-- The choice of a match method in backend/app/modules/matching/engine.py (`build_match_fields`
-- and what it calls), and the gated writes of the payloads (`_sign_records`,
-- `write_match_results_sync`). `uuid5(MATCH_NAMESPACE, …)` and `title_tokens` are arguments; the
-- write functions are those of `GateRpc`, and commits do not fail. The theorems are in `Doors`
-- and `Writes`.
pub mod Writes
pub mod Doors
use Prim.Native.String.{◌++◌ as ◌++ₛ◌}
use imperecta.Base.{
  ℕ, zero, suc, ◌+◌, String, Bool, true, false, not, ◌&&◌, ◌==◌, Option, none, some, List, [], ◌∷◌,
  ◌>>=◌, negsuc, Dict, Result, ok, or_else, length, if◌then◌else◌,
}
use imperecta.Payload.{Value, str, float, Float, is_blank}
use imperecta.Rules.Currency.{strip}
use imperecta.Signing.{SignedRecord}
use imperecta.Firewall.{Gate, Decision}
use imperecta.GateRpc.{Call, exec_write_record, exec_write_records}
use imperecta.ScrapeUpdate.{authorize_scrape_update}
use imperecta.Matching.Signature.{Signature, hundredths}

abbrev pub confidence_gtin : Float
confidence_gtin = hundredths "0.99" (9 ∷ 9 ∷ []) (negsuc 1)

abbrev pub confidence_title_exact : Float
confidence_title_exact = hundredths "0.85" (8 ∷ 5 ∷ []) (negsuc 1)

-- `x and x.strip()`, as a test
unfoldable pub is_filled : Option String → Bool
is_filled none = false
is_filled (some text) = not (is_blank text)

abbrev pub match_fields : String → String → String → Float → Dict Value
match_fields product_id group method confidence =
    ("id", str product_id)
    ∷ ("match_group_id", str group)
    ∷ ("match_method", str method)
    ∷ ("match_confidence", float confidence)
    ∷ []

module _ (uuid5 : String → String) (normalize_title_key lower : String → String) where
  unfoldable pub gtin_group_id : String → String
  gtin_group_id gtin = uuid5 ("gtin:" ++ₛ strip gtin)

  unfoldable pub match_group_id : String → String → String
  match_group_id brand code = uuid5 (brand ++ₛ "|" ++ₛ code)

  unfoldable pub title_group_id : String → Option String → String
  title_group_id title_en product_type_en =
      let type_key = lower (strip (or_else product_type_en "")) in
      uuid5 ("title2:" ++ₛ type_key ++ₛ ":" ++ₛ normalize_title_key title_en)

  unfoldable pub build_gtin_fields : String → String → Dict Value
  build_gtin_fields product_id gtin =
      match_fields product_id (gtin_group_id gtin) "gtin" confidence_gtin

  unfoldable pub build_title_fields : String → String → Option String → Dict Value
  build_title_fields product_id title_en product_type_en =
      match_fields product_id (title_group_id title_en product_type_en) "title_exact"
        confidence_title_exact

  -- from `if signature is not None` on
  unfoldable pub build_unidentified_fields :
      String → Option Signature → Option String → Option String → Dict Value
  build_unidentified_fields product_id (some signature) title_en product_type_en =
      match_fields product_id (match_group_id signature.brand signature.code) "brand_model"
        signature.confidence
  build_unidentified_fields product_id none title_en product_type_en =
      if is_filled title_en
      then build_title_fields product_id (or_else title_en "") product_type_en
      else ("id", str product_id) ∷ ("match_method", str "unmatched") ∷ []

  unfoldable pub build_match_fields :
      String → Option Signature → Option String → Option String → Option String → Dict Value
  build_match_fields product_id signature sku_universal title_en product_type_en =
      if is_filled sku_universal
      then build_gtin_fields product_id (or_else sku_universal "")
      else build_unidentified_fields product_id signature title_en product_type_en

-- `if outcome.passed and outcome.signed_record is not None`
unfoldable pub add_signed : Decision → List SignedRecord → List SignedRecord
add_signed d signed = if d.outcome.passed then add_some d.outcome.signed_record signed else signed
  where
    add_some : Option SignedRecord → List SignedRecord → List SignedRecord
    add_some none signed = signed
    add_some (some record_signed) signed = record_signed ∷ signed

module _ (g : Gate) where
  unfoldable pub sign_records : List (Dict Value) → Result (List SignedRecord)
  sign_records [] = ok []
  sign_records (fields ∷ payloads) = do
    outcome ← authorize_scrape_update g false "product_match" "dim_product" "product_match" fields
    signed ← sign_records payloads
    ok (add_signed outcome signed)

-- `signed[start : start + WRITE_CHUNK_SIZE]`, and what is behind it
unfoldable pub take {ℓ} : {A : Type ℓ} → ℕ → List A → List A
take zero xs = []
take (suc n) [] = []
take (suc n) (x ∷ xs) = x ∷ take n xs

unfoldable pub drop {ℓ} : {A : Type ℓ} → ℕ → List A → List A
drop zero xs = xs
drop (suc n) [] = []
drop (suc n) (x ∷ xs) = drop n xs

abbrev pub write_chunk_size : ℕ
write_chunk_size = 100

-- a write, and then the writes that start from the database it leaves
abbrev pub and_then {ℓ} : {Db : Type ℓ} → ℕ × Db → (Db → ℕ × Db) → ℕ × Db
and_then (count, db) next = (count + (next db).0, (next db).1)

module _ {Db : Type 0} (exec_write : Call → Db → Option (ℕ × Db))
    (aborts : List SignedRecord → Db → Bool) where
  -- the loop over the records of a chunk that failed, from one committed state to the next
  unfoldable pub write_singly : List SignedRecord → Db → ℕ × Db
  write_singly [] db = (0, db)
  write_singly (record_signed ∷ chunk) db = elim (exec_write_record exec_write record_signed db) [
    | none ↦ write_singly chunk db
    | some written ↦ and_then written (write_singly chunk)
  ]

  unfoldable pub write_chunk : List SignedRecord → Db → ℕ × Db
  write_chunk chunk db = elim (exec_write_records exec_write aborts chunk db) [
    | none ↦ write_singly chunk db
    | some written ↦ written
  ]

  -- the loop over the chunks, on fuel
  unfoldable pub write_chunks : ℕ → List SignedRecord → Db → ℕ × Db
  write_chunks zero signed db = (0, db)
  write_chunks (suc fuel) [] db = (0, db)
  write_chunks (suc fuel) (first ∷ others) db =
      and_then (write_chunk (take write_chunk_size (first ∷ others)) db)
        (write_chunks fuel (drop write_chunk_size (first ∷ others)))

  unfoldable pub write_match_results_sync : Gate → List (Dict Value) → Db → Result (ℕ × Db)
  write_match_results_sync g payloads db = do
    signed ← sign_records g payloads
    ok (write_chunks (length signed) signed db)
