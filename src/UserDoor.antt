-- ===== src/UserDoor.antt =====
-- `authorize_user_write` of backend/app/modules/data_firewall/user_door.py: the door for writes to
-- `users`. The theorems are in `Laws`, `Safety` and
-- `Complete`.
pub mod Laws
pub mod Safety
pub mod Complete
use imperecta.Base.{
  String, Bool, true, false, not, ◌&&◌, ◌==◌, Option, none, some, List, [], ◌∷◌, keep, elem,
  is_empty, Dict, get, has, Result, ok, if◌then◌else◌,
}
use imperecta.Payload.{Value, boolean, read, is_true, is_false}
use imperecta.UserKinds.{
  user_insert_allowlist, user_update_allowlist, user_delete_kinds, check_semantic_invariants,
}
use imperecta.Contracts.{table_locators}
use imperecta.Firewall.{Gate, Note, text, texts, Decision, reject}
use imperecta.Doors.{
  missing_columns, payload_columns, disallowed_columns, reject_columns, locator_only,
  validate_and_sign,
}

abbrev pub user_table : String
user_table = "users"

-- `{key: fields[key] for key in changed}`; the source takes the columns of a set in no fixed order,
-- the model in the order of `fields`
unfoldable pub changed_fields : List String → Dict Value → Dict Value
changed_fields locator_keys = keep (λ entry. not (elem (entry.0) locator_keys))

module _ (g : Gate) (has_db : Bool) (source kind : String) (locator_keys : List String)
    (fields : Dict Value) where
  abbrev kind_note : Dict Note
  kind_note = ("kind", text (some kind)) ∷ []

  abbrev accept_notes : Dict Note
  accept_notes = ("table", text (some user_table)) ∷ ("kind", text (some kind)) ∷ []

  unfoldable pub refuse : String → String → Dict Note → Decision
  refuse operation reason notes =
      reject has_db source user_table operation reason (reason ∷ []) fields notes

  -- the end of insert and update, after the semantic check
  unfoldable pub unless_violated : String → Dict Value → Option String → Result Decision
  unless_violated operation validated none =
      validate_and_sign g has_db source user_table operation accept_notes validated fields
  unless_violated operation validated (some reason) = ok (refuse operation reason [])

  -- the insert branch, for a known kind
  unfoldable pub insert_user : List String → Result Decision
  insert_user allowed =
      let payload_keys = payload_columns locator_keys fields in
      let disallowed = disallowed_columns allowed payload_keys in
      if not (is_empty disallowed)
      then ok (
          reject_columns has_db source user_table "insert" "column_not_allowed" disallowed fields
            kind_note)
      else unless_violated "insert" fields (check_semantic_invariants kind payload_keys fields)

  -- the update branch, for a known kind
  unfoldable pub update_user : List String → Result Decision
  update_user allowed =
      let changed = payload_columns locator_keys fields in
      let disallowed = disallowed_columns allowed changed in
      if is_empty changed
      then ok (refuse "update" "nothing_to_update" [])
      else if not (is_empty disallowed)
      then ok (
          reject_columns has_db source user_table "update" "column_not_allowed" disallowed fields
            kind_note)
      else unless_violated "update" (changed_fields locator_keys fields)
          (check_semantic_invariants kind changed fields)

  unfoldable pub of_known_kind :
      String → (List String → Result Decision) → Option (List String) → Result Decision
  of_known_kind operation branch none = ok (refuse operation "unknown_user_kind" kind_note)
  of_known_kind operation branch (some allowed) = branch allowed

  unfoldable pub delete_user : Result Decision
  delete_user =
      if not (elem kind user_delete_kinds)
      then ok (refuse "delete" "unknown_user_kind" kind_note)
      else locator_only g has_db source user_table "delete" accept_notes locator_keys fields

  -- the branches on the operation
  unfoldable pub dispatch : String → Result Decision
  dispatch operation =
      if operation == "insert"
      then of_known_kind "insert" insert_user (get user_insert_allowlist kind)
      else if operation == "update"
      then of_known_kind "update" update_user (get user_update_allowlist kind)
      else if operation == "delete"
      then delete_user
      else ok (refuse operation "unsupported_operation" [])

module _ (g : Gate) (has_db : Bool) (source operation kind : String) (fields : Dict Value) where
  -- after `TABLE_LOCATORS.get(table)`
  unfoldable pub with_locator : Option (List String) → Result Decision
  with_locator none = ok (
      reject has_db source user_table operation "missing_locator" ("missing_locator_contract" ∷ [])
        fields [])
  with_locator (some locator_keys) =
      let missing = missing_columns locator_keys fields in
      if is_empty locator_keys
      then ok (
          reject has_db source user_table operation "missing_locator"
            ("missing_locator_contract" ∷ []) fields [])
      else if not (is_empty missing)
      then ok (
          reject has_db source user_table operation "missing_locator" ("missing_locator" ∷ [])
            fields (("missing", texts missing) ∷ []))
      else dispatch g has_db source kind locator_keys fields operation

  unfoldable pub authorize_user_write : Result Decision
  authorize_user_write = with_locator (get table_locators user_table)
