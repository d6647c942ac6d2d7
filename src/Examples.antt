-- ===== src/Examples.antt =====
-- Tests, and concrete calls to which the theorems apply. The data that they share is here: a signer
-- whose digest is the size of the message, and the contracts of a few tables.
pub mod Signatures
pub mod Scrapes
pub mod AlertWrites
pub mod Users
pub mod Rows
pub mod Collision
pub mod Ticks
pub mod RunTicks
pub mod Matches
pub mod Titles
pub mod Guards
pub mod Products
pub mod Runs
use imperecta.Base.{
  ℕ, String, Bool, true, false, Option, none, some, List, [], ◌∷◌, length, Dict, if◌then◌else◌,
  ◌==◌,
}
use imperecta.Wire.Utf8.{Bytes}
use imperecta.Payload.{Value, str, integer, boolean, uuid}
use imperecta.Signing.{Signer}
use imperecta.Contracts.{ColumnContract}
use imperecta.Firewall.{Gate}

abbrev pub signer : Signer
signer = record {
  data_firewall_signing_secret = some "secret";
  hmac_sha256 = λ key message. "digest";
}

abbrev pub text_column : ColumnContract
text_column = record {
  type = "string";
  nullable = false;
  max_len = some 8;
  precision = none;
  scale = none;
  check_values = some ("user" ∷ "assistant" ∷ []);
}

abbrev pub free_text : ColumnContract
free_text = record {
  type = "string";
  nullable = true;
  max_len = some 20;
  precision = none;
  scale = none;
  check_values = none;
}

abbrev pub flag_column : ColumnContract
flag_column = record {
  type = "boolean";
  nullable = false;
  max_len = none;
  precision = none;
  scale = none;
  check_values = none;
}

abbrev pub contract : Dict ColumnContract
contract =
    ("role", text_column)
    ∷ ("name", free_text)
    ∷ ("content", free_text)
    ∷ ("is_active", flag_column)
    ∷ []

abbrev pub gate : Gate
gate = record {
  signer = signer;
  fact_table_contracts = λ table. if table == "nowhere" then none else some contract;
}
