-- ===== src/UserDoor/Safety.antt =====
-- No write that the user door passes escalates a privilege.
use imperecta.Base.{
  String, ◌≡◌, refl, sym, ◌∙◌, Bool, true, false, List, [], ◌∷◌, Dict, has, elem, is_empty, ok,
  Returns, inl, inr,
}
use mathlib.Core.Path.{subst}
use imperecta.Payload.{Value}
use imperecta.UserKinds.Privileges.{IsPrivilegeSafe}
use imperecta.Firewall.{Gate, Decision}
use imperecta.Doors.Locator.{IsLocatorOnly, IsLocatorOnly-at}
use imperecta.UserDoor.{authorize_user_write}
use imperecta.UserDoor.Laws.{
  locator, users_locator, columns_agree, IsPermitted, insert, update, delete, SoundWrite,
  authorize_user_write-Sound,
}

elem-is_empty : (key : String) (xs : List String) → is_empty xs ≡ true → elem key xs ≡ false
elem-is_empty key [] h = refl
elem-is_empty key (x ∷ xs) h = absurd (cc)

only_locator :
    (fields : Dict Value)
    → IsLocatorOnly "users" fields
    → (key : String) → elem key locator ≡ false
    → has fields key ≡ false
only_locator fields p key other =
    let (located, nothing) = IsLocatorOnly-at "users" fields locator users_locator p in
    sym (columns_agree fields key other) ∙ elem-is_empty key _ nothing

-- a payload with no privileged column is safe for every kind
no_privileged :
    (kind : String) (fields : Dict Value)
    → IsLocatorOnly "users" fields
    → IsPrivilegeSafe kind fields
no_privileged kind fields p =
    let absent = only_locator fields p in
    record {
      superuser = inl (absent "is_superuser" refl);
      password_hash = inl (absent "password_hash" refl);
      plan = inl (absent "plan" refl);
      active = inl (absent "is_active" refl);
    }

permitted-IsPrivilegeSafe :
    (g : Gate) (operation kind : String) (fields : Dict Value)
    → IsPermitted g operation kind fields
    → IsPrivilegeSafe kind fields
permitted-IsPrivilegeSafe g operation kind fields (insert e p) = p.privileges
permitted-IsPrivilegeSafe g operation kind fields (update e p) = p.privileges
permitted-IsPrivilegeSafe g operation kind fields (delete e p) =
    no_privileged kind fields p.only_locator

-- Whatever the operation, a write to `users` that the door passes sets `is_superuser` only for the
-- kinds `admin_create` and `admin_update`, `password_hash` and `plan` only for theirs, and
-- `is_active` only to `False` and only for `admin_update`: nobody is reactivated.
pub authorize_user_write-no_escalation :
    (g : Gate) (has_db : Bool) (source operation kind : String) (fields : Dict Value) (d : Decision)
    → authorize_user_write g has_db source operation kind fields ≡ ok d
    → d.outcome.passed ≡ true
    → IsPrivilegeSafe kind fields
authorize_user_write-no_escalation g has_db source operation kind fields d returned passed =
    let sound : SoundWrite g has_db source kind fields operation d =
      subst (Returns (SoundWrite g has_db source kind fields operation)) returned
        (authorize_user_write-Sound g has_db source kind fields operation) in
    elim sound [
      | inl (accepted, permitted) ↦ permitted-IsPrivilegeSafe g operation kind fields permitted
      | inr rejected ↦ let fails = rejected.not_passed in absurd (cc)
    ]
