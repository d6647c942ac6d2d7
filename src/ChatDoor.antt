-- ===== src/ChatDoor.antt =====
-- `authorize_chat_write` of backend/app/modules/data_firewall/chat_door.py: the door for the rows of
-- the AI chat. The theorems are in `Laws`.
pub mod Laws
use imperecta.Base.{
  String, Bool, true, false, not, ◌&&◌, ◌==◌, Option, none, some, List, [], ◌∷◌, elem, is_empty,
  Dict, get, Result, ok, value_error, type_error, if◌then◌else◌,
}
use imperecta.Payload.{
  Value, null, boolean, integer, decimal_number, float, datetime, date, uuid, str, json, read,
  str_of, is_null, is_blank,
}
use imperecta.Contracts.{table_locators}
use imperecta.Firewall.{Gate, Note, text, texts, Decision, reject}
use imperecta.Doors.{
  missing_columns, payload_columns, disallowed_columns, reject_columns, validate_and_sign,
}

abbrev pub sessions_table : String
sessions_table = "ai_chat_sessions"

abbrev pub messages_table : String
messages_table = "ai_chat_messages"

abbrev pub message_append_roles : List String
message_append_roles = "user" ∷ "assistant" ∷ []

unfoldable pub chat_insert_allowlist : Dict (Dict (List String))
chat_insert_allowlist =
    (
      sessions_table,
      ("session_create", "user_id" ∷ "title" ∷ "context_type" ∷ "context_id" ∷ []) ∷ [],
    )
    ∷ (
      messages_table,
      (
        "message_append",
        "session_id" ∷ "role" ∷ "content" ∷ "tokens_used" ∷ "model_used" ∷ "duration_ms"
            ∷ "tool_calls" ∷ "user_rating" ∷ [],
      )
          ∷ [],
    )
    ∷ []

unfoldable pub chat_columns : String → String → Option (List String)
chat_columns table kind = elim (get chat_insert_allowlist table) [
  | none ↦ none
  | some table_kinds ↦ get table_kinds kind
]

-- `value is not None and str(value).strip() != ""`
unfoldable pub is_named : Value → Bool
is_named value = not (is_null value) && not (is_blank (str_of value))

unfoldable pub owner_present : String → Dict Value → Bool
owner_present table fields =
    if table == sessions_table
    then is_named (read fields "user_id")
    else if table == messages_table
    then is_named (read fields "session_id")
    else false

-- `role in MESSAGE_APPEND_ROLES`; a list or a dictionary cannot be looked up in a set
unfoldable pub role_allowed : Value → Result Bool
role_allowed (str s) = ok (elem s message_append_roles)
role_allowed (json dumped s) = type_error "unhashable type"
role_allowed _ = ok false

module _ (g : Gate) (has_db : Bool) (source operation table kind : String)
    (fields : Dict Value) where
  unfoldable pub refuse : String → List String → Dict Note → Result Decision
  refuse reason rules notes = ok (reject has_db source table operation reason rules fields notes)

  unfoldable pub validated : Result Decision
  validated =
      validate_and_sign g has_db source table operation
        (("table", text (some table)) ∷ ("kind", text (some kind)) ∷ []) fields fields

  -- the role check, for messages
  unfoldable pub check_role : Result Bool → Result Decision
  check_role (ok true) = validated
  check_role (ok false) = refuse "invalid_message_role" ("invalid_message_role" ∷ []) []
  check_role (value_error message) = value_error message
  check_role (type_error message) = type_error message

  -- the checks after the locator contract is known
  unfoldable pub check_payload : List String → List String → Result Decision
  check_payload allowed locator_keys =
      let missing = missing_columns locator_keys fields in
      let disallowed = disallowed_columns allowed (payload_columns locator_keys fields) in
      if not (is_empty missing)
      then refuse "missing_locator" ("missing_locator" ∷ []) (("missing", texts missing) ∷ [])
      else if not (owner_present table fields)
      then refuse "owner_missing" ("owner_missing" ∷ []) []
      else if not (is_empty disallowed)
      then ok (
          reject_columns has_db source table operation "column_not_allowed" disallowed fields
            (("kind", text (some kind)) ∷ []))
      else if table == messages_table && kind == "message_append"
      then check_role (role_allowed (read fields "role"))
      else validated

  -- a table with no locator contract, or an empty one
  unfoldable pub with_locator : List String → Option (List String) → Result Decision
  with_locator allowed none = refuse "missing_locator" ("missing_locator_contract" ∷ []) []
  with_locator allowed (some locator_keys) =
      if is_empty locator_keys
      then refuse "missing_locator" ("missing_locator_contract" ∷ []) []
      else check_payload allowed locator_keys

  unfoldable pub of_kind : Option (List String) → Result Decision
  of_kind none =
      refuse "unknown_chat_kind" ("unknown_chat_kind" ∷ [])
        (("table", text (some table)) ∷ ("kind", text (some kind)) ∷ [])
  of_kind (some allowed) = with_locator allowed (get table_locators table)

  unfoldable pub authorize_chat_write : Result Decision
  authorize_chat_write =
      if not (operation == "insert")
      then refuse "unsupported_operation" ("unsupported_operation" ∷ []) []
      else of_kind (chat_columns table kind)
