-- ===== src/Examples/Signatures.antt =====
-- Calls of the signing functions.
use imperecta.Base.{String, ◌≡◌, ◌≢◌, refl, none, some, [], ◌∷◌, Dict, map, true, false}
use imperecta.Payload.{is_blank, Value, str, boolean}
use imperecta.Signing.{
  Signer, signing_secret, sign, verify, canonical_serialize_signed_payload,
  canonical_serialize_signed_batch_payload,
}
use imperecta.Signing.Ordered.{
  canonical_serialize_ordered_record, canonical_serialize_ordered_batch,
  ordered_entries_from_mapping, ordered_record-eq-signed_payload, ordered_batch-eq-signed_batch,
}
use imperecta.Signing.Binding.{wire_view, signed_payload_determined, verify_binds}
use imperecta.Examples.{signer}

abbrev users : String
users = "users"

abbrev update : String
update = "update"

abbrev digest : String
digest = "digest"

abbrev locator : Dict Value
locator = ("id", str "7") ∷ []

abbrev fields : Dict Value
fields = ("id", str "7") ∷ ("is_active", boolean false) ∷ []

secret : signing_secret signer ≡ some "secret"
unfolding signing_secret is_blank
secret = refl

signed : sign signer "users" "update" fields locator ≡ some "digest"
unfolding sign signing_secret is_blank
signed = refl

accepted : verify signer "users" "update" fields locator (some "digest") ≡ true
unfolding verify sign signing_secret is_blank
accepted = refl

not_empty : digest ≢ ""
not_empty h = absurd (cc)

verify_binds_example :
    (users ≡ users)
    × (update ≡ update)
    × (wire_view locator ≡ wire_view locator)
    × (wire_view fields ≡ wire_view fields)
verify_binds_example =
    verify_binds signer "users" "users" "update" "update" fields fields locator locator "secret"
      "digest" secret (λ same. refl) refl refl signed accepted

signed_payload_determined_example :
    (users ≡ users)
    × (update ≡ update)
    × (wire_view locator ≡ wire_view locator)
    × (wire_view fields ≡ wire_view fields)
signed_payload_determined_example =
    signed_payload_determined "users" "users" "update" "update" fields fields locator locator refl
      refl refl

abbrev blank_signer : Signer
blank_signer = record {
  data_firewall_signing_secret = some " ";
  hmac_sha256 = λ key message. "digest";
}

blank : signing_secret blank_signer ≡ none
unfolding signing_secret is_blank
blank = refl

ordered_record_example :
    canonical_serialize_ordered_record "users" "update"
      (ordered_entries_from_mapping locator)
      (ordered_entries_from_mapping fields)
    ≡ canonical_serialize_signed_payload "users" "update" fields locator
ordered_record_example = ordered_record-eq-signed_payload "users" "update" fields locator

ordered_batch_example :
    canonical_serialize_ordered_batch "users" "insert"
      (ordered_entries_from_mapping locator)
      (map ordered_entries_from_mapping (fields ∷ locator ∷ []))
    ≡ canonical_serialize_signed_batch_payload "users" "insert" (fields ∷ locator ∷ []) locator
ordered_batch_example =
    ordered_batch-eq-signed_batch "users" "insert" (fields ∷ locator ∷ []) locator
