-- ===== src/Signing/Ordered.antt =====
-- backend/app/modules/data_firewall/signing_ordered.py: the wire form that the persist layer sends,
-- as entries (key, is_null, value) in a given order, and its agreement with what was signed.
use imperecta.Base.{
  String, suc, ◌≡◌, refl, ap, Bool, true, false, none, some, List, [], ◌∷◌, ◌++◌, map, arith, Dict,
  keys, length, sorted, length-sorted,
}
use imperecta.Wire.Utf8.{Bytes}
use imperecta.Wire.Decimal.{decimal}
use imperecta.Wire.Prefix.{lp_string}
use imperecta.Payload.{Value, canonical_str, read}
use imperecta.Signing.{
  val_enc, entries_enc, dict_enc, header, canonical_serialize_signed_payload, rows_enc,
  canonical_serialize_signed_batch_payload,
}

abbrev pub Entry : Type 0
Entry = String × Bool × String

pub val_enc_ordered : Bool → String → Bytes
val_enc_ordered true val = b'N' ∷ []
val_enc_ordered false val = b'S' ∷ lp_string val

field_of : String → (string_value : Value) → Entry
field_of key value = elim (canonical_str value) [
  | none ↦ (key, true, "")
  | some string_value ↦ (key, false, string_value)
]

unfoldable pub field_entry : String → Value → Entry
unfolding field_of
field_entry key value = field_of key value

unfoldable pub ordered_entries_from_mapping : Dict Value → List Entry
ordered_entries_from_mapping fields =
    map (λ key. field_entry key (read fields key)) (sorted (keys fields))

pub ordered_enc : List Entry → Bytes
unfolding val_enc_ordered
ordered_enc [] = []
ordered_enc ((key, is_null, val) ∷ entries) =
    lp_string key ++ val_enc_ordered is_null val ++ ordered_enc entries

unfoldable pub dict_enc_ordered : List Entry → Bytes
unfolding ordered_enc
dict_enc_ordered entries = b'D' ∷ (decimal (length entries) ++ ordered_enc entries)

unfoldable pub canonical_serialize_ordered_record :
    String → String → List Entry → List Entry → Bytes
canonical_serialize_ordered_record table operation locator fields =
    header table operation (dict_enc_ordered locator) (b'F' ∷ dict_enc_ordered fields)

pub ordered_rows_enc : List (List Entry) → Bytes
ordered_rows_enc [] = []
ordered_rows_enc (row ∷ rows) = dict_enc_ordered row ++ ordered_rows_enc rows

unfoldable pub canonical_serialize_ordered_batch :
    String → String → List Entry → List (List Entry) → Bytes
unfolding ordered_rows_enc
canonical_serialize_ordered_batch table operation locator rows =
    header table operation (dict_enc_ordered locator)
      (b'R' ∷ (decimal (length rows) ++ ordered_rows_enc rows))

field_entry-enc :
    (mapping : Dict Value) (key : String) (rest : List Entry)
    → ordered_enc (field_entry key (read mapping key) ∷ rest)
      ≡ lp_string key ++ val_enc (read mapping key) ++ ordered_enc rest
unfolding ordered_enc field_entry val_enc
field_entry-enc mapping key rest = ground arith

entries_enc-ordered :
    (mapping : Dict Value) (ks : List String)
    → ordered_enc (map (λ key. field_entry key (read mapping key)) ks) ≡ entries_enc mapping ks
unfolding entries_enc
entries_enc-ordered mapping [] = unfold ordered_enc in refl
entries_enc-ordered mapping (k ∷ ks) =
    rw (field_entry-enc mapping k _, entries_enc-ordered mapping ks)

length-map_entries :
    (mapping : Dict Value) (ks : List String)
    → length (map (λ key. field_entry key (read mapping key)) ks) ≡ length ks
length-map_entries mapping [] = refl
length-map_entries mapping (k ∷ ks) = ap suc (length-map_entries mapping ks)

length-keys : (mapping : Dict Value) → length (keys mapping) ≡ length mapping
length-keys [] = refl
length-keys ((k, v) ∷ mapping) = ap suc (length-keys mapping)

-- The wire entries of a mapping encode as the mapping does.
pub dict_enc_ordered-entries :
    (mapping : Dict Value)
    → dict_enc_ordered (ordered_entries_from_mapping mapping) ≡ dict_enc mapping
unfolding dict_enc_ordered ordered_entries_from_mapping dict_enc
dict_enc_ordered-entries mapping = rw (
  length-map_entries mapping (sorted (keys mapping)),
  length-sorted (keys mapping),
  length-keys mapping,
  entries_enc-ordered mapping (sorted (keys mapping)),
)

-- For every table, operation, locator and fields, the bytes that the persist layer's wire form
-- spells are the bytes that the door signed.
pub ordered_record-eq-signed_payload :
    (table operation : String) (fields locator : Dict Value)
    → canonical_serialize_ordered_record table operation
        (ordered_entries_from_mapping locator)
        (ordered_entries_from_mapping fields)
      ≡ canonical_serialize_signed_payload table operation fields locator
unfolding canonical_serialize_ordered_record canonical_serialize_signed_payload
ordered_record-eq-signed_payload table operation fields locator = simp dict_enc_ordered-entries

ordered_rows_enc-entries :
    (rows : List (Dict Value))
    → ordered_rows_enc (map ordered_entries_from_mapping rows) ≡ rows_enc rows
unfolding ordered_rows_enc rows_enc
ordered_rows_enc-entries [] = refl
ordered_rows_enc-entries (row ∷ rows) =
    rw (dict_enc_ordered-entries row, ordered_rows_enc-entries rows)

length-map_rows :
    (rows : List (Dict Value)) → length (map ordered_entries_from_mapping rows) ≡ length rows
length-map_rows [] = refl
length-map_rows (row ∷ rows) = ap suc (length-map_rows rows)

-- For every table, operation, locator and list of rows, the bytes of the batch's wire form are the
-- bytes that `sign_batch` signed.
pub ordered_batch-eq-signed_batch :
    (table operation : String) (rows : List (Dict Value)) (locator : Dict Value)
    → canonical_serialize_ordered_batch table operation
        (ordered_entries_from_mapping locator)
        (map ordered_entries_from_mapping rows)
      ≡ canonical_serialize_signed_batch_payload table operation rows locator
unfolding canonical_serialize_ordered_batch canonical_serialize_signed_batch_payload
ordered_batch-eq-signed_batch table operation rows locator =
    simp (dict_enc_ordered-entries, ordered_rows_enc-entries, length-map_rows)
