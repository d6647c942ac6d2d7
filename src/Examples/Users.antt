-- ===== src/Examples/Users.antt =====
-- Calls of the user door and of the chat door.
use imperecta.Wire.Utf8.{utf8}
use imperecta.Wire.Prefix.{lp_string}
use imperecta.Wire.Decimal.{str_int, decimal}
use imperecta.Rules.{is_positive}
use imperecta.Firewall.Validate.{
  type_mismatch, tuple_fits, too_long, payload_failures, numeric_fits, int_digits, frac_digits,
  entry_failures, column_failures, bad_check, as_tuple, validate_against_contract,
}
use imperecta.UserKinds.{
  user_insert_allowlist, may_set_superuser, may_set_active, check_semantic_invariants,
  user_update_allowlist,
}
use imperecta.Doors.{
  sign_or_reject, reject_columns, locator_only, labelled, close, validate_contract_subset,
  validate_and_sign, disallowed_columns, payload_columns, missing_columns,
}
use imperecta.Contracts.{extract_locator, table_locators}
use imperecta.Base.{
  sorted, keep, ◌≡◌, refl, true, false, some, [], ◌∷◌, Dict, ok, Returns, get, inl, inr,
}
use imperecta.Payload.{str_of, is_blank, Value, str, boolean}
use imperecta.Signing.{signing_secret, sign, dict_enc, canonical_serialize_signed_payload}
use imperecta.Firewall.{
  signed_with, sign_fields, reject_row, reject, plain_outcome, Decision, accept, text,
}
use imperecta.UserKinds.Privileges.{IsPrivilegeSafe}
use imperecta.UserDoor.{
  refuse, insert_user, delete_user, changed_fields, unless_violated, update_user, of_known_kind,
  dispatch, with_locator, authorize_user_write,
}
use imperecta.UserDoor.Laws.{SoundWrite, authorize_user_write-Sound, IsUpdatable, update}
use imperecta.UserDoor.Safety.{authorize_user_write-no_escalation}
use imperecta.UserDoor.Complete.{authorize_user_write_complete}
use imperecta.ChatDoor.{authorize_chat_write}
use imperecta.ChatDoor.Laws.{IsAppendable, authorize_chat_write-Sound}
use imperecta.Base.{is_empty}
use imperecta.Signing.{signing_secret}
use imperecta.UserKinds.{user_update_allowlist}
use imperecta.UserDoor.{changed_fields}
use imperecta.Doors.{payload_columns}
use imperecta.Doors.Columns.{OnlyAllowed, disallowed-OnlyAllowed}
use imperecta.Doors.Contract.{MeetsContract}
use imperecta.Doors.Closing.{Sound}
use imperecta.Examples.{signer, gate}

abbrev fields : Dict Value
fields = ("id", str "7") ∷ ("is_active", boolean false) ∷ []

abbrev decision : Decision
decision =
    accept (("table", text (some "users")) ∷ ("kind", text (some "admin_update")) ∷ []) (record {
      table = "users";
      operation = "update";
      locator = ("id", str "7") ∷ [];
      fields = fields;
      signature = "digest";
    })

authorize_user_write-Sound_example :
    Returns
      (SoundWrite gate true "user_write" "admin_update" fields "update")
      (authorize_user_write gate true "user_write" "update" "admin_update" fields)
authorize_user_write-Sound_example =
    authorize_user_write-Sound gate true "user_write" "admin_update" fields "update"

returned : authorize_user_write gate true "user_write" "update" "admin_update" fields ≡ ok decision
unfolding authorize_user_write with_locator table_locators missing_columns keep dispatch
    of_known_kind user_update_allowlist update_user payload_columns disallowed_columns sorted
    unless_violated check_semantic_invariants validate_and_sign validate_contract_subset
    validate_against_contract extract_locator close labelled locator_only reject_columns
    sign_or_reject as_tuple bad_check column_failures entry_failures frac_digits int_digits
    numeric_fits payload_failures too_long tuple_fits type_mismatch accept plain_outcome reject
    reject_row sign_fields signed_with is_blank str_of is_positive
    canonical_serialize_signed_payload dict_enc sign signing_secret changed_fields delete_user
    insert_user refuse may_set_active may_set_superuser user_insert_allowlist decimal str_int
    lp_string utf8
returned = refl

passes : decision.outcome.passed ≡ true
unfolding accept
passes = refl

authorize_user_write-no_escalation_example : IsPrivilegeSafe "admin_update" fields
authorize_user_write-no_escalation_example =
    authorize_user_write-no_escalation gate true "user_write" "update" "admin_update" fields
      decision returned passes

only_flag :
    OnlyAllowed
      ("id" ∷ [])
      ("email" ∷ "name" ∷ "company_name" ∷ "plan" ∷ "language" ∷ "timezone" ∷ "is_active"
        ∷ "is_superuser" ∷ [])
      fields
unfolding disallowed_columns sorted keep payload_columns
only_flag =
    disallowed-OnlyAllowed ("id" ∷ [])
      ("email" ∷ "name" ∷ "company_name" ∷ "plan" ∷ "language" ∷ "timezone" ∷ "is_active"
        ∷ "is_superuser" ∷ [])
      fields refl

meets : MeetsContract gate "users" (changed_fields ("id" ∷ []) fields)
unfolding validate_contract_subset validate_against_contract payload_failures changed_fields keep
    entry_failures column_failures
meets = refl

changes : is_empty (payload_columns ("id" ∷ []) fields) ≡ false
unfolding payload_columns keep
changes = refl

known :
    get user_update_allowlist "admin_update"
    ≡ some (
        "email" ∷ "name" ∷ "company_name" ∷ "plan" ∷ "language" ∷ "timezone" ∷ "is_active"
        ∷ "is_superuser" ∷ [])
unfolding user_update_allowlist
known = refl

usable : signing_secret signer ≡ some "secret"
unfolding signing_secret is_blank
usable = refl

deactivation : IsUpdatable gate "admin_update" fields
deactivation = record {
  allowed =
      "email" ∷ "name" ∷ "company_name" ∷ "plan" ∷ "language" ∷ "timezone" ∷ "is_active"
      ∷ "is_superuser" ∷ [];
  known_kind = known;
  located = refl;
  changes_something = changes;
  only_allowed = only_flag;
  privileges = record {
    superuser = inl refl;
    password_hash = inl refl;
    plan = inl refl;
    active = inr (refl, refl);
  };
  contract = meets;
}

authorize_user_write_complete_example :
    Returns
      (λ d. d.outcome.passed ≡ true)
      (authorize_user_write gate false "user_write" "update" "admin_update" fields)
authorize_user_write_complete_example =
    authorize_user_write_complete gate false "user_write" "admin_update" fields "secret" usable
      "update" (update refl deactivation)

abbrev message : Dict Value
message =
    ("id", str "1") ∷ ("session_id", str "2") ∷ ("role", str "user") ∷ ("content", str "hi") ∷ []

authorize_chat_write-Sound_example :
    Returns
      (Sound gate true "chat_write" "ai_chat_messages" "insert" message
        (IsAppendable gate "insert" "ai_chat_messages" "message_append" message))
      (authorize_chat_write gate true "chat_write" "insert" "ai_chat_messages" "message_append"
        message)
authorize_chat_write-Sound_example =
    authorize_chat_write-Sound gate true "chat_write" "insert" "ai_chat_messages" "message_append"
      message refl
