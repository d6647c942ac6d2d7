-- ===== src/Signing/Binding.antt =====
-- What the canonical bytes of a payload determine, and what a signature then binds.
use imperecta.Base.{
  ℕ, suc, String, ◌≡◌, ◌≢◌, refl, sym, ap, ◌∙◌, Option, none, some, List, [], ◌∷◌, ◌++◌, arith,
  Dict, keys, length, sorted, length-sorted, append_assoc, true, false, eq_iff,
}
use imperecta.Wire.Utf8.{Bytes, utf8}
use imperecta.Wire.Decimal.{decimal}
use imperecta.Wire.Prefix.{lp_string-cancel, append_cancel}
use imperecta.Payload.{Value, canonical_str, read}
use imperecta.Signing.{
  Signer, string_enc, val_enc, entries_enc, dict_enc, canonical_serialize_signed_payload,
  signing_secret, sign, verify,
}
use mathlib.Core.List.{cons-eq-cons}

-- what the signature is about: the keys in order, each with its canonical string
abbrev pub view : Dict Value → List String → List (String × Option String)
view mapping [] = []
view mapping (k ∷ ks) = (k, canonical_str (read mapping k)) ∷ view mapping ks

unfoldable pub wire_view : Dict Value → List (String × Option String)
wire_view mapping = view mapping (sorted (keys mapping))

string_enc-cancel :
    (a b : Option String) (xs ys : Bytes)
    → string_enc a ++ xs ≡ string_enc b ++ ys
    → (a ≡ b) × (xs ≡ ys)
unfolding string_enc
string_enc-cancel none none xs ys h = ground arith
string_enc-cancel none (some t) xs ys h = absurd (ground arith)
string_enc-cancel (some s) none xs ys h = absurd (ground arith)
string_enc-cancel (some s) (some t) xs ys h = ground (arith, lp_string-cancel s t xs ys)

-- Entry lists of the same length are read off in one way.
entries_enc-cancel :
    (d d' : Dict Value) (ks ks' : List String) (xs ys : Bytes)
    → length ks ≡ length ks'
    → entries_enc d ks ++ xs ≡ entries_enc d' ks' ++ ys
    → (view d ks ≡ view d' ks') × (xs ≡ ys)
unfolding entries_enc val_enc
entries_enc-cancel d d' [] [] xs ys e h = (refl, h)
entries_enc-cancel d d' [] (k' ∷ ks') xs ys e h = absurd (omega arith)
entries_enc-cancel d d' (k ∷ ks) [] xs ys e h = absurd (omega arith)
entries_enc-cancel d d' (k ∷ ks) (k' ∷ ks') xs ys e h =
    let (same_key, after_key) = lp_string-cancel k k' _ _ (simp append_assoc at h) in
    let (same_value, after_value) =
      string_enc-cancel (canonical_str (read d k)) (canonical_str (read d' k')) _ _ after_key in
    let (same_rest, rest) = entries_enc-cancel d d' ks ks' xs ys (ground arith) after_value in
    (cc, rest)

length-keys : (mapping : Dict Value) → length (keys mapping) ≡ length mapping
length-keys [] = refl
length-keys ((k, v) ∷ mapping) = ap suc (length-keys mapping)

length-sorted-keys : (mapping : Dict Value) → length (sorted (keys mapping)) ≡ length mapping
length-sorted-keys mapping = length-sorted (keys mapping) ∙ length-keys mapping

dict_enc-cancel :
    (d d' : Dict Value) (xs ys : Bytes)
    → length d ≡ length d'
    → dict_enc d ++ xs ≡ dict_enc d' ++ ys
    → (wire_view d ≡ wire_view d') × (xs ≡ ys)
unfolding dict_enc wire_view
dict_enc-cancel d d' xs ys e h =
    let body =
      (append_cancel (b'D' ∷ decimal (length d)) (b'D' ∷ decimal (length d'))
        (entries_enc d (sorted (keys d)) ++ xs) (entries_enc d' (sorted (keys d')) ++ ys)
        (ap (λ n. suc (length (decimal n))) e) (simp append_assoc at h)).1 in
    entries_enc-cancel d d' (sorted (keys d)) (sorted (keys d')) xs ys
      (length-sorted-keys d ∙ e ∙ sym (length-sorted-keys d')) body

cons-cancel : (b : ℕ) (xs ys : Bytes) → ◌≡◌ {A = Bytes} (b ∷ xs) (b ∷ ys) → xs ≡ ys
cons-cancel b xs ys h = (cons-eq-cons.0 h).1

-- Two payloads with equally many locator entries and equally many fields that are serialized to
-- the same bytes have the same table, operation, locator entries and field entries.
pub signed_payload_determined :
    (table table' operation operation' : String) (fields fields' locator locator' : Dict Value)
    → length locator ≡ length locator'
    → length fields ≡ length fields'
    → canonical_serialize_signed_payload table operation fields locator
      ≡ canonical_serialize_signed_payload table' operation' fields' locator'
    → (table ≡ table')
      × (operation ≡ operation')
      × (wire_view locator ≡ wire_view locator')
      × (wire_view fields ≡ wire_view fields')
unfolding canonical_serialize_signed_payload
signed_payload_determined t t' o o' f f' l l' same_locators same_fields h =
    let (table, at_operation) = lp_string-cancel t t' _ _ (cons-cancel b'T' _ _ h) in
    let (operation, at_locator) = lp_string-cancel o o' _ _ (cons-cancel b'O' _ _ at_operation) in
    let (locator, at_fields) =
      dict_enc-cancel l l' _ _ same_locators (cons-cancel b'L' _ _ at_locator) in
    let fields =
      dict_enc-cancel f f' [] [] same_fields
        (ap (λ bytes. bytes ++ []) (cons-cancel b'F' _ _ at_fields)) in
    (table, operation, locator, fields.0)

module _ (e : Signer) where
  -- Without a usable secret nothing is signed, and no signature is accepted.
  pub unset_secret_fails_closed :
      (table operation : String) (fields locator : Dict Value) (signature : Option String)
      → signing_secret e ≡ none
      → (sign e table operation fields locator ≡ none)
        × (verify e table operation fields locator signature ≡ false)
  unfolding sign verify
  unset_secret_fails_closed table operation fields locator none h = ground arith
  unset_secret_fails_closed table operation fields locator (some s) h = ground arith

  -- What `sign` returns is accepted by `verify` for the same payload, if it is not the empty text.
  pub verify-sign :
      (table operation : String) (fields locator : Dict Value) (signature : String)
      → sign e table operation fields locator ≡ some signature
      → (signature ≢ "")
      → verify e table operation fields locator (some signature) ≡ true
  unfolding verify
  verify-sign table operation fields locator signature h nonempty =
      ground (arith, eq_iff signature "", eq_iff signature signature)

  -- A signature made for one payload is accepted for a second one with equally many locator entries
  -- and fields only if both have the same table, operation, locator entries and field entries,
  -- unless the HMAC collides on their bytes.
  pub verify_binds :
      (table table' operation operation' : String) (fields fields' locator locator' : Dict Value)
      (secret signature : String)
      → signing_secret e ≡ some secret
      → (e.hmac_sha256
              (utf8 secret)
              (canonical_serialize_signed_payload table operation fields locator)
            ≡ e.hmac_sha256
                (utf8 secret)
                (canonical_serialize_signed_payload table' operation' fields' locator')
          → canonical_serialize_signed_payload table operation fields locator
            ≡ canonical_serialize_signed_payload table' operation' fields' locator')
      → length locator ≡ length locator'
      → length fields ≡ length fields'
      → sign e table operation fields locator ≡ some signature
      → verify e table' operation' fields' locator' (some signature) ≡ true
      → (table ≡ table')
        × (operation ≡ operation')
        × (wire_view locator ≡ wire_view locator')
        × (wire_view fields ≡ wire_view fields')
  unfolding sign verify
  verify_binds t t' o o' f f' l l' secret signature hs no_collision el ef signed accepted =
      signed_payload_determined t t' o o' f f' l l' el ef (
        no_collision (
          ground (
            arith,
            eq_iff (e.hmac_sha256 (utf8 secret) (canonical_serialize_signed_payload t' o' f' l'))
                signature,
          )))
