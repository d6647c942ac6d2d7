-- ===== src/Examples/Matches.antt =====
-- Calls of the matching.
use imperecta.Base.{
  keep, ℕ, String, ◌≡◌, refl, true, false, Bool, Option, none, some, List, [], ◌∷◌, Returns, arith,
  All,
}
use imperecta.Signing.{SignedRecord}
use imperecta.ScrapeUpdate.{authorize_scrape_update}
use imperecta.Matching.Chars.{
  is_alpha, all_chars, text_length, is_unit_token, matches_unit, starts_digit, after_digits,
  matches_dimensions, x_number, is_digits, is_mixed,
}
use imperecta.Matching.Signature.{
  with_brand, find_brand, first_known, first_word, signature_of, codes_of, joined_codes, can_join,
  add_code, is_joined_code, is_token_code, stronger, token_codes, unit_attrs,
  extract_match_signature, strongest_of, Signature, confidence_known_brand,
}
use imperecta.Matching.Signature.Codes.{IsSignature, extract_match_signature-IsSignature}
use imperecta.Matching.Merge.{
  resolve_on, resolve, merge_pair, merge_window, merge_keyed, moves_of, keyed_lt, insert_keyed,
  Keyed, title_merges, run_title_merge_pass, sort_keyed,
}
use imperecta.Matching.Merge.Pairs.{Same}
use imperecta.Matching.Merge.Passes.{IsMove, title_merges-joins, run_title_merge_pass-moves}
use imperecta.Matching.Methods.{
  take, drop, write_chunk, build_match_fields, write_chunks, write_singly,
}
use imperecta.GateRpc.{add_calls, call_of, exec_calls, exec_write_records, Call, exec_write_record}
use imperecta.Base.{suc, zero, ◌==◌, if◌then◌else◌}
use imperecta.Matching.Methods.Writes.{write_chunks-singly}
use imperecta.Matching.Methods.Doors.{build_match_fields_passes}
use imperecta.Examples.Scrapes.{usable}
use imperecta.Examples.{gate}

abbrev find_tokens : String → List String
find_tokens name = "sencor" ∷ "sfd" ∷ "950ss" ∷ "17l" ∷ []

abbrev signature : Signature
signature = record {
  brand = "sencor";
  code = "sfd950ss";
  codes = "950ss" ∷ "sfd950ss" ∷ [];
  attrs = "17l" ∷ [];
  confidence = confidence_known_brand;
}

-- the joined code wins over its second half, and the unit is no code
found :
    extract_match_signature find_tokens ("sencor" ∷ []) (some "Sencor SFD 950SS 17l")
    ≡ some signature
unfolding extract_match_signature with_brand find_brand first_known first_word signature_of codes_of
    joined_codes can_join is_alpha all_chars text_length is_unit_token matches_unit starts_digit
    after_digits matches_dimensions x_number keep is_digits is_mixed add_code is_joined_code
    is_token_code stronger strongest_of token_codes unit_attrs
found = refl

extract_match_signature-IsSignature_example :
    IsSignature ("sencor" ∷ []) (find_tokens "Sencor SFD 950SS 17l") signature
extract_match_signature-IsSignature_example =
    extract_match_signature-IsSignature find_tokens ("sencor" ∷ []) "Sencor SFD 950SS 17l" signature
      found

-- a brand that its own halves spell becomes a code by the join
brand_as_code_test :
    extract_match_signature
      (λ name. "mi14pro" ∷ "mi" ∷ "14pro" ∷ [])
      ("mi14pro" ∷ [])
      (some "mi14pro mi 14pro")
    ≡ some (record {
      brand = "mi14pro";
      code = "mi14pro";
      codes = "14pro" ∷ "mi14pro" ∷ [];
      attrs = [];
      confidence = confidence_known_brand;
    })
unfolding extract_match_signature with_brand find_brand first_known first_word signature_of codes_of
    joined_codes can_join is_alpha all_chars text_length is_unit_token matches_unit starts_digit
    after_digits matches_dimensions x_number keep is_digits is_mixed add_code is_joined_code
    is_token_code stronger strongest_of token_codes unit_attrs
brand_as_code_test = refl

abbrev kettle : Keyed
kettle = record { type_key = "kettle"; token_key = "1.7l kettle"; tokens = []; gid = "g2" }

abbrev kettle_too : Keyed
kettle_too = record { type_key = "kettle"; token_key = "1.7l kettle red"; tokens = []; gid = "g1" }

abbrev groups : List Keyed
groups = kettle_too ∷ kettle ∷ []

abbrev alike : Keyed → Keyed → Bool
alike a b = true

abbrev member_ids : String → List String
member_ids gid = "p1" ∷ "p2" ∷ []

ordered : sort_keyed groups ≡ kettle ∷ kettle_too ∷ []
unfolding sort_keyed insert_keyed keyed_lt
ordered = refl

title_merges-joins_example : Same (title_merges alike groups) kettle.gid kettle_too.gid
title_merges-joins_example =
    title_merges-joins alike groups [] kettle [] kettle_too [] ordered (omega arith) tt refl refl

run_title_merge_pass-moves_example :
    All
      (IsMove member_ids (title_merges alike groups))
      (run_title_merge_pass alike member_ids groups).payloads
run_title_merge_pass-moves_example = run_title_merge_pass-moves alike member_ids groups

-- both members of the group "g2" move
moved_test : (run_title_merge_pass alike member_ids groups).moved_rows ≡ 2
unfolding run_title_merge_pass moves_of title_merges merge_keyed sort_keyed insert_keyed keyed_lt
    merge_window merge_pair resolve resolve_on
moved_test = refl

abbrev signed : SignedRecord
signed = record {
  table = "dim_product";
  operation = "update";
  locator = [];
  fields = [];
  signature = "digest";
}

-- the database counts the calls; the signature "forged" is refused
abbrev counting : Call → ℕ → Option (ℕ × ℕ)
counting call db = if call.signature == "forged" then none else some (1, suc db)

abbrev no_abort : List SignedRecord → ℕ → Bool
no_abort chunk db = false

abbrev forged : SignedRecord
forged = record signed { signature = "forged" }

abbrev times : ℕ → List SignedRecord → List SignedRecord
times zero rest = rest
times (suc n) rest = signed ∷ times n rest

-- two chunks, of which the second has a record that is refused
abbrev batch : List SignedRecord
batch = times 100 (signed ∷ forged ∷ signed ∷ [])

-- a chunk with a refused record falls back to single writes
chunk_test : write_chunks counting no_abort 3 (signed ∷ forged ∷ signed ∷ []) 0 ≡ (2, 2)
unfolding write_chunks write_singly exec_write_record write_chunk drop exec_write_records take
    exec_calls call_of add_calls
chunk_test = refl

write_chunks-singly_example :
    write_chunks counting no_abort 103 batch 7 ≡ write_singly counting no_abort batch 7
write_chunks-singly_example = write_chunks-singly counting no_abort 103 batch 7 (omega arith)

abbrev keep_text : String → String
keep_text text = text

build_match_fields_passes_example :
    Returns
      (λ d. d.outcome.passed ≡ true)
      (authorize_scrape_update gate false "product_match" "dim_product" "product_match"
        (build_match_fields keep_text keep_text keep_text "p1" (some signature) none none none))
build_match_fields_passes_example =
    build_match_fields_passes keep_text keep_text keep_text gate "secret" usable "p1"
      (some signature) none none none
