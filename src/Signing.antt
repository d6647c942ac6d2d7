-- ===== src/Signing.antt =====
-- backend/app/modules/data_firewall/signing.py: the canonical bytes of a payload and the HMAC over
-- them. HMAC-SHA256 is a parameter: a function from the key's and the message's bytes to the hex
-- digest. The ordered wire form of signing_ordered.py is in `Ordered`; the proofs are below.
pub mod Ordered
pub mod Binding
use imperecta.Base.{
  ℕ, ◌+◌, String, ◌≡◌, refl, Bool, true, false, Option, none, some, List, [], ◌∷◌, ◌++◌, map, arith,
  if◌then◌else◌, ◌==◌, Dict, keys, length, sorted,
}
use imperecta.Wire.Utf8.{Bytes, utf8}
use imperecta.Wire.Decimal.{decimal}
use imperecta.Wire.Prefix.{lp_string}
use imperecta.Payload.{Value, canonical_str, read, is_blank}

-- the setting `data_firewall_signing_secret`, and `hmac.new(key, message, "sha256").hexdigest()`
pub record Signer : Type 0 where
  pub data_firewall_signing_secret : Option String
  pub hmac_sha256 : Bytes → Bytes → String

pub string_enc : Option String → Bytes
string_enc none = b'N' ∷ []
string_enc (some s) = b'S' ∷ lp_string s

pub val_enc : Value → Bytes
unfolding string_enc
val_enc value = string_enc (canonical_str value)

-- the loop of `_dict_enc` over the sorted keys
pub entries_enc : Dict Value → List String → Bytes
entries_enc mapping [] = []
entries_enc mapping (key ∷ rest) =
    lp_string key ++ val_enc (read mapping key) ++ entries_enc mapping rest

unfoldable pub dict_enc : Dict Value → Bytes
unfolding val_enc entries_enc
dict_enc mapping = b'D' ∷ (decimal (length mapping) ++ entries_enc mapping (sorted (keys mapping)))

-- the part in front of the fields or rows
abbrev pub header : String → String → Bytes → Bytes → Bytes
header table operation locator rest =
    b'T' ∷ (lp_string table ++ b'O' ∷ (lp_string operation ++ b'L' ∷ (locator ++ rest)))

unfoldable pub canonical_serialize_signed_payload :
    String → String → Dict Value → Dict Value → Bytes
canonical_serialize_signed_payload table operation fields locator =
    header table operation (dict_enc locator) (b'F' ∷ dict_enc fields)

pub rows_enc : List (Dict Value) → Bytes
rows_enc [] = []
rows_enc (row ∷ rows) = dict_enc row ++ rows_enc rows

unfoldable pub canonical_serialize_signed_batch_payload :
    String → String → List (Dict Value) → Dict Value → Bytes
unfolding rows_enc
canonical_serialize_signed_batch_payload table operation rows locator =
    header table operation (dict_enc locator) (b'R' ∷ (decimal (length rows) ++ rows_enc rows))

module _ (e : Signer) where
  -- `None` when the secret is unset or blank
  unfoldable pub signing_secret : Option String
  signing_secret = elim e.data_firewall_signing_secret [
    | none ↦ none
    | some secret ↦ if is_blank secret then none else some secret
  ]

  unfoldable pub sign : String → String → Dict Value → Dict Value → Option String
  sign table operation fields locator = elim signing_secret [
    | none ↦ none
    | some secret ↦ some (
        e.hmac_sha256 (utf8 secret)
          (canonical_serialize_signed_payload table operation fields locator))
  ]

  unfoldable pub sign_batch : String → String → List (Dict Value) → Dict Value → Option String
  sign_batch table operation rows locator = elim signing_secret [
    | none ↦ none
    | some secret ↦ some (
        e.hmac_sha256 (utf8 secret)
          (canonical_serialize_signed_batch_payload table operation rows locator))
  ]

  -- `hmac.compare_digest` against the recomputed digest; a missing or empty signature fails
  matches : Option String → Option String → Bool
  matches expected none = false
  matches none (some signature) = false
  matches (some digest) (some signature) = if signature == "" then false else digest == signature

  unfoldable pub verify : String → String → Dict Value → Dict Value → Option String → Bool
  unfolding matches
  verify table operation fields locator signature =
      matches (sign table operation fields locator) signature

  unfoldable pub verify_batch :
      String → String → List (Dict Value) → Dict Value → Option String → Bool
  unfolding matches
  verify_batch table operation rows locator signature =
      matches (sign_batch table operation rows locator) signature

pub record SignedRecord : Type 0 where
  pub table : String
  pub operation : String
  pub locator : Dict Value
  pub fields : Dict Value
  pub signature : String

pub record SignedBatch : Type 0 where
  pub table : String
  pub operation : String
  pub locator : Dict Value
  pub rows : List (Dict Value)
  pub signature : String
