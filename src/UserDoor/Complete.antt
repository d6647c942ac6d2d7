-- ===== src/UserDoor/Complete.antt =====
-- The user door passes everything that its rule book permits.
use imperecta.Base.{String, ◌≡◌, Bool, true, some, arith, Dict, has, Result, Returns, all}
use imperecta.Payload.{Value}
use imperecta.Signing.{signing_secret}
use imperecta.UserKinds.Privileges.{check_semantic_invariants_complete}
use imperecta.Firewall.{Gate, Decision}
use imperecta.Doors.Columns.{OnlyAllowed-disallowed, is_empty-missing}
use imperecta.Doors.Locator.{IsLocatorOnly-at, locator_only_complete}
use imperecta.Doors.Contract.{validate_and_sign_complete}
use imperecta.UserDoor.{
  changed_fields, unless_violated, insert_user, update_user, of_known_kind, delete_user, dispatch,
  with_locator, authorize_user_write,
}
use imperecta.UserDoor.Laws.{
  locator, users_locator, columns_agree, IsPermitted, insert, update, delete, IsInsertable,
  IsUpdatable, IsRemovable,
}

module _ (g : Gate) (has_db : Bool) (source kind : String) (fields : Dict Value) (secret : String)
    (usable : signing_secret g.signer ≡ some secret) where
  abbrev Passes : Result Decision → Type 0
  Passes = Returns (λ d. d.outcome.passed ≡ true)

  insert-Passes :
      IsInsertable g kind fields → Passes (dispatch g has_db source kind locator fields "insert")
  unfolding dispatch of_known_kind
  insert-Passes p =
      unfold insert_user unless_violated in
      rw
        (
          p.known_kind,
          OnlyAllowed-disallowed locator p.allowed fields p.only_allowed,
          check_semantic_invariants_complete kind _ fields (columns_agree fields) p.privileges,
          dispatch,
        )
        (validate_and_sign_complete g has_db source "users" "insert" _ fields fields locator secret
          usable users_locator (ground arith) p.contract)

  update-Passes :
      IsUpdatable g kind fields → Passes (dispatch g has_db source kind locator fields "update")
  unfolding dispatch of_known_kind
  update-Passes p =
      unfold update_user unless_violated in
      rw
        (
          p.known_kind,
          p.changes_something,
          OnlyAllowed-disallowed locator p.allowed fields p.only_allowed,
          check_semantic_invariants_complete kind _ fields (columns_agree fields) p.privileges,
          dispatch,
        )
        (validate_and_sign_complete g has_db source "users" "update" _
          (changed_fields locator fields) fields locator secret usable users_locator (ground arith)
          p.contract)

  delete-Passes :
      IsRemovable kind fields → Passes (dispatch g has_db source kind locator fields "delete")
  unfolding dispatch
  delete-Passes p =
      let (located, no_others) =
        IsLocatorOnly-at "users" fields locator users_locator p.only_locator in
      unfold delete_user in
      rw (p.known_kind, dispatch)
        (locator_only_complete g has_db source "users" "delete" _ locator fields secret usable
          users_locator located no_others)

  IsPermitted-located :
      (operation : String) → IsPermitted g operation kind fields → all (has fields) locator ≡ true
  IsPermitted-located operation (insert e p) = let h = p.located in ground arith
  IsPermitted-located operation (update e p) = let h = p.located in ground arith
  IsPermitted-located operation (delete e p) =
      (IsLocatorOnly-at "users" fields locator users_locator p.only_locator).0

  dispatch_complete :
      (operation : String)
      → IsPermitted g operation kind fields
      → Passes (dispatch g has_db source kind locator fields operation)
  dispatch_complete operation (insert e p) = rw e (insert-Passes p)
  dispatch_complete operation (update e p) = rw e (update-Passes p)
  dispatch_complete operation (delete e p) = rw e (delete-Passes p)

  -- Every write to `users` that the rule book of its operation permits is passed, once a signing
  -- secret is configured.
  pub authorize_user_write_complete :
      (operation : String)
      → IsPermitted g operation kind fields
      → Passes (authorize_user_write g has_db source operation kind fields)
  unfolding authorize_user_write with_locator
  authorize_user_write_complete operation p =
      rw
        (
          users_locator,
          is_empty-missing locator fields,
          IsPermitted-located operation p,
          authorize_user_write,
        )
        (dispatch_complete operation p)
