-- ===== src/UserKinds.antt =====
-- The kinds of writes to `users` and their privileges: the allowlists and
-- `_check_semantic_invariants` of backend/app/modules/data_firewall/user_door.py, with
-- user_superuser_predicate.py and user_active_predicate.py. The theorems are in `Privileges`.
pub mod Privileges
use imperecta.Base.{
  String, Bool, true, false, not, ◌&&◌, ◌==◌, Option, none, some, List, [], ◌∷◌, elem, Dict, has,
  if◌then◌else◌,
}
use imperecta.Payload.{Value, read, is_true, is_false}

unfoldable pub user_insert_allowlist : Dict (List String)
user_insert_allowlist =
    (
      "register",
      "email" ∷ "password_hash" ∷ "name" ∷ "company_name" ∷ "plan" ∷ "trial_ends_at" ∷ "language"
          ∷ [],
    )
    ∷ (
      "admin_create",
      "email" ∷ "password_hash" ∷ "name" ∷ "company_name" ∷ "plan" ∷ "language" ∷ "timezone"
          ∷ "is_superuser" ∷ "force_password_change" ∷ [],
    )
    ∷ []

unfoldable pub user_update_allowlist : Dict (List String)
user_update_allowlist =
    ("login_touch", "last_login_at" ∷ [])
    ∷ ("password_change", "email" ∷ "password_hash" ∷ "force_password_change" ∷ [])
    ∷ (
      "self_update",
      "name" ∷ "company_name" ∷ "language" ∷ "timezone" ∷ "ai_tone" ∷ "default_currency"
          ∷ "avatar_url" ∷ "preferences" ∷ [],
    )
    ∷ ("telegram_link", "telegram_chat_id" ∷ "telegram_link_code" ∷ [])
    ∷ (
      "admin_update",
      "email" ∷ "name" ∷ "company_name" ∷ "plan" ∷ "language" ∷ "timezone" ∷ "is_active"
          ∷ "is_superuser" ∷ [],
    )
    ∷ ("admin_password_reset", "password_hash" ∷ "force_password_change" ∷ [])
    ∷ []

abbrev pub user_delete_kinds : List String
user_delete_kinds = "admin_delete" ∷ []

abbrev pub password_hash_kinds : List String
password_hash_kinds = "register" ∷ "password_change" ∷ "admin_create" ∷ "admin_password_reset" ∷ []

abbrev pub plan_kinds : List String
plan_kinds = "register" ∷ "admin_create" ∷ "admin_update" ∷ []

abbrev pub admin_superuser_kinds : List String
admin_superuser_kinds = "admin_create" ∷ "admin_update" ∷ []

abbrev pub admin_deactivate_kind : String
admin_deactivate_kind = "admin_update"

unfoldable pub may_set_superuser : String → Dict Value → Bool
may_set_superuser kind target_fields = if not (elem kind admin_superuser_kinds) then false else true

unfoldable pub may_set_active : String → Dict Value → Bool
may_set_active kind target_fields =
    let value = read target_fields "is_active" in
    if not (has target_fields "is_active")
    then true
    else if is_true value
    then false
    else if is_false value
    then kind == admin_deactivate_kind
    else false

-- `_check_semantic_invariants`: the reason of the first invariant that is violated, which is also
-- the only failed rule
unfoldable pub check_semantic_invariants : String → List String → Dict Value → Option String
unfolding may_set_superuser may_set_active
check_semantic_invariants kind changed fields =
    if elem "is_superuser" changed && not (may_set_superuser kind fields)
    then some "privilege_escalation"
    else if elem "password_hash" changed && not (elem kind password_hash_kinds)
    then some "password_hash_forbidden"
    else if elem "plan" changed && not (elem kind plan_kinds)
    then some "plan_forbidden"
    else if elem "is_active" changed && not (may_set_active kind fields)
    then if is_true (read fields "is_active")
      then some "reactivation_forbidden"
      else some "is_active_forbidden"
    else none
