-- ===== src/ChatDoor/Laws.antt =====
-- What the chat door lets through.
use imperecta.Base.{
  String, ◌≡◌, ◌≢◌, refl, sym, ap, ◌∙◌, ◌⊎◌, ◌&&◌, Bool, true, false, Option, none, some, List, [],
  ◌∷◌, arith, Dict, get, has, all, is_empty, Result, ok, value_error, type_error, Returns,
  Bool-cases, if_rule, not-false, inl, inr, ◌==◌, eq_iff,
}
use mathlib.Core.Path.{subst}
use imperecta.Payload.{Value, str, json, read, is_blank, str_of}
use imperecta.Contracts.{table_locators}
use imperecta.Firewall.{Gate, Decision}
use imperecta.Doors.Columns.{OnlyAllowed, is_empty-missing, disallowed-OnlyAllowed}
use imperecta.Doors.Closing.{Sound, reject-Sound, reject_columns-Sound}
use imperecta.Doors.Contract.{MeetsContract, validate_and_sign-Sound}
use imperecta.ChatDoor.{
  chat_insert_allowlist, chat_columns, is_named, owner_present, role_allowed, refuse, validated,
  check_role, check_payload, with_locator, of_kind, authorize_chat_write,
}

abbrev is_json : Value → Bool
is_json (json dumped s) = true
is_json _ = false

-- the column that names the owner of a row
abbrev owner_column : Dict String
owner_column = ("ai_chat_sessions", "user_id") ∷ ("ai_chat_messages", "session_id") ∷ []

-- The rule book of the chat: rows are only inserted, they name their owner, and a message is from
-- the user or from the assistant.
pub record IsAppendable (g : Gate) (operation table kind : String) (fields : Dict Value)
    : Type 0 where
  pub inserted : operation ≡ "insert"
  pub allowed : List String
  pub known_kind : chat_columns table kind ≡ some allowed
  pub locator_keys : List String
  pub known_locator : get table_locators table ≡ some locator_keys
  pub located : all (has fields) locator_keys ≡ true
  pub only_allowed : OnlyAllowed locator_keys allowed fields
  pub owner : String
  pub owner_known : get owner_column table ≡ some owner
  pub owned : is_blank (str_of (read fields owner)) ≡ false
  pub from_either_side :
      (table ≢ "ai_chat_messages")
      ⊎ (read fields "role" ≡ str "user")
      ⊎ (read fields "role" ≡ str "assistant")
  pub contract : MeetsContract g table fields

-- `owner_present` finds a value in the column that names the owner.
pub owner_present_sound :
    (table : String) (fields : Dict Value)
    → owner_present table fields ≡ true
    → (owner : String) × (get owner_column table ≡ some owner)
      × (is_blank (str_of (read fields owner)) ≡ false)
unfolding owner_present is_named
owner_present_sound table fields h =
    let s = eq_iff table "ai_chat_sessions" in
    let s' = eq_iff "ai_chat_sessions" table in
    let m = eq_iff table "ai_chat_messages" in
    let m' = eq_iff "ai_chat_messages" table in
    elim (Bool-cases (table == "ai_chat_sessions")) [
      | inl e ↦ ("user_id", ground arith, ground arith)
      | inr e ↦ ("session_id", ground arith, ground arith)
    ]

role_allowed_sound :
    (v : Value) → role_allowed v ≡ ok true → (v ≡ str "user") ⊎ (v ≡ str "assistant")
unfolding role_allowed
role_allowed_sound (str s) h = elim (Bool-cases ("user" == s)) [
  | inl e ↦ inl (ap str (sym ((eq_iff "user" s).0 e)))
  | inr e ↦
      let e' : "assistant" == s ≡ true = ground arith in
      inr (ap str (sym ((eq_iff "assistant" s).0 e')))
]
role_allowed_sound _ h = absurd (cc)

-- the only kind of message
messages_append :
    (kind : String) (allowed : List String)
    → chat_columns "ai_chat_messages" kind ≡ some allowed
    → kind == "message_append" ≡ true
unfolding chat_columns chat_insert_allowlist
messages_append kind allowed h =
    let m = eq_iff "message_append" kind in let m' = eq_iff kind "message_append" in ground arith

module _ (g : Gate) (has_db : Bool) (source operation table kind : String)
    (fields : Dict Value) where
  abbrev SoundChat : Decision → Type 0
  SoundChat =
      Sound g has_db source table operation fields (IsAppendable g operation table kind fields)

  validated-Sound :
      (locator_keys : List String)
      → get table_locators table ≡ some locator_keys
      → all (has fields) locator_keys ≡ true
      → (MeetsContract g table fields → IsAppendable g operation table kind fields)
      → Returns SoundChat (validated g has_db source operation table kind fields)
  unfolding validated
  validated-Sound locator_keys known located permitted =
      validate_and_sign-Sound g has_db source table operation _ fields fields locator_keys
        (IsAppendable g operation table kind fields) known located permitted

  check_role-Sound :
      (r : Result Bool) (locator_keys : List String)
      → get table_locators table ≡ some locator_keys
      → all (has fields) locator_keys ≡ true
      → ((b : Bool) × (r ≡ ok b))
      → (r ≡ ok true → MeetsContract g table fields → IsAppendable g operation table kind fields)
      → Returns SoundChat (check_role g has_db source operation table kind fields r)
  unfolding check_role refuse
  check_role-Sound (ok true) locator_keys known located hashable permitted =
      validated-Sound locator_keys known located (permitted refl)
  check_role-Sound (ok false) locator_keys known located hashable permitted =
      reject-Sound g has_db source table operation fields _ _ _ _
  check_role-Sound (value_error m) locator_keys known located (b, e) permitted = absurd (cc)
  check_role-Sound (type_error m) locator_keys known located (b, e) permitted = absurd (cc)

  role_allowed_total : (v : Value) → is_json v ≡ false → (b : Bool) × (role_allowed v ≡ ok b)
  unfolding role_allowed
  role_allowed_total (json dumped s) h = absurd (cc)
  role_allowed_total (str s) h = (_, refl)
  role_allowed_total _ h = (false, refl)

  not_a_message :
      (allowed : List String)
      → chat_columns table kind ≡ some allowed
      → (table == "ai_chat_messages" && kind == "message_append") ≡ false
      → table ≡ "ai_chat_messages"
      → ⊥
  not_a_message allowed known other e =
      let append : kind == "message_append" ≡ true =
        messages_append kind allowed (subst (λ t. chat_columns t kind ≡ some allowed) e known) in
      let m = eq_iff table "ai_chat_messages" in ground arith

  check_payload-Sound :
      (allowed locator_keys : List String)
      → operation ≡ "insert"
      → chat_columns table kind ≡ some allowed
      → get table_locators table ≡ some locator_keys
      → is_json (read fields "role") ≡ false
      → Returns SoundChat
          (check_payload g has_db source operation table kind fields allowed locator_keys)
  unfolding check_payload refuse
  check_payload-Sound allowed locator_keys inserted known_kind known_locator hashable =
      if_rule (Returns SoundChat) _ _ _
        (λ _. reject-Sound g has_db source table operation fields _ _ _ _)
        λ present.
          if_rule (Returns SoundChat) _ _ _
            (λ _. reject-Sound g has_db source table operation fields _ _ _ _)
            λ owned.
              if_rule (Returns SoundChat) _ _ _
                (λ _. reject_columns-Sound g has_db source table operation fields _ _ _ _)
                λ only.
                  let located : all (has fields) locator_keys ≡ true =
                    sym (is_empty-missing locator_keys fields) ∙ not-false present in
                  let (owner, owner_known, named) =
                    owner_present_sound table fields (not-false owned) in
                  let permitted : (table ≢ "ai_chat_messages")
                        ⊎ (read fields "role" ≡ str "user")
                        ⊎ (read fields "role" ≡ str "assistant")
                      → MeetsContract g table fields
                      → IsAppendable g operation table kind fields =
                    λ roles contract. record {
                      inserted = inserted;
                      allowed = allowed;
                      known_kind = known_kind;
                      locator_keys = locator_keys;
                      known_locator = known_locator;
                      located = located;
                      only_allowed =
                          disallowed-OnlyAllowed locator_keys allowed fields (not-false only);
                      owner = owner;
                      owner_known = owner_known;
                      owned = named;
                      from_either_side = roles;
                      contract = contract;
                    } in
                  if_rule (Returns SoundChat) _ _ _
                    (λ _.
                      check_role-Sound (role_allowed (read fields "role")) locator_keys
                        known_locator located (role_allowed_total (read fields "role") hashable)
                        λ fits. permitted (inr (role_allowed_sound (read fields "role") fits)))
                    λ other.
                      validated-Sound locator_keys known_locator located
                        (permitted (inl (not_a_message allowed known_kind other)))

  with_locator-Sound :
      (allowed : List String) (locator : Option (List String))
      → operation ≡ "insert"
      → chat_columns table kind ≡ some allowed
      → get table_locators table ≡ locator
      → is_json (read fields "role") ≡ false
      → Returns SoundChat (with_locator g has_db source operation table kind fields allowed locator)
  unfolding with_locator refuse
  with_locator-Sound allowed none inserted known_kind known_locator hashable =
      reject-Sound g has_db source table operation fields _ _ _ _
  with_locator-Sound allowed (some locator_keys) inserted known_kind known_locator hashable =
      if_rule (Returns SoundChat) (is_empty locator_keys)
        (refuse g has_db source operation table kind fields "missing_locator"
          ("missing_locator_contract" ∷ []) [])
        _ (λ _. reject-Sound g has_db source table operation fields _ _ _ _)
        λ _. check_payload-Sound allowed locator_keys inserted known_kind known_locator hashable

  of_kind-Sound :
      (o : Option (List String))
      → operation ≡ "insert"
      → chat_columns table kind ≡ o
      → is_json (read fields "role") ≡ false
      → Returns SoundChat (of_kind g has_db source operation table kind fields o)
  unfolding of_kind refuse
  of_kind-Sound none inserted known_kind hashable =
      reject-Sound g has_db source table operation fields _ _ _ _
  of_kind-Sound (some allowed) inserted known_kind hashable =
      with_locator-Sound allowed (get table_locators table) inserted known_kind refl hashable

  -- Unless the role is a list or a dictionary, the chat door raises nothing. Its decision is a
  -- signed pass with no reject row or a rejection with a reason and, given a session, one reject
  -- row; and it passes only inserts of a known kind that have the locator column, no column outside
  -- the allowlist, an owner that is not blank, for a message a role that is `user` or `assistant`,
  -- and fields that meet the column contract.
  pub authorize_chat_write-Sound :
      is_json (read fields "role") ≡ false
      → Returns SoundChat (authorize_chat_write g has_db source operation table kind fields)
  unfolding authorize_chat_write refuse
  authorize_chat_write-Sound hashable =
      if_rule (Returns SoundChat) _ _ _
        (λ _. reject-Sound g has_db source table operation fields _ _ _ _)
        λ insert.
          of_kind-Sound (chat_columns table kind) ((eq_iff operation "insert").0 (not-false insert))
            refl hashable
