-- ===== src/UserDoor/Laws.antt =====
-- What the user door lets through, and that it always decides.
use imperecta.Base.{
  String, ◌≡◌, refl, sym, ◌∙◌, Bool, true, false, Option, none, some, List, [], ◌∷◌, arith, Dict,
  get, has, all, elem, is_empty, Result, Returns, if_rule, not-false, ◌==◌, eq_iff,
}
use mathlib.Core.Path.{subst}
use imperecta.Payload.{Value}
use imperecta.Contracts.{table_locators}
use imperecta.UserKinds.{user_insert_allowlist, user_update_allowlist}
use imperecta.UserKinds.Privileges.{IsPrivilegeSafe, check_semantic_invariants_safe}
use imperecta.Firewall.{Gate, Decision}
use imperecta.Doors.{payload_columns}
use imperecta.Doors.Columns.{
  OnlyAllowed, is_empty-missing, disallowed-OnlyAllowed, elem-payload_columns,
}
use imperecta.Doors.Closing.{Sound, reject-Sound, reject_columns-Sound, Returns-Sound_map}
use imperecta.Doors.Locator.{IsLocatorOnly, locator_only-Sound}
use imperecta.Doors.Contract.{MeetsContract, validate_and_sign-Sound}
use imperecta.UserDoor.{
  changed_fields, refuse, unless_violated, insert_user, update_user, of_known_kind, delete_user,
  dispatch, with_locator, authorize_user_write,
}

abbrev pub locator : List String
locator = "id" ∷ []

-- The rule book of inserts: all of the fields meet the contract.
pub record IsInsertable (g : Gate) (kind : String) (fields : Dict Value) : Type 0 where
  pub allowed : List String
  pub known_kind : get user_insert_allowlist kind ≡ some allowed
  pub located : has fields "id" ≡ true
  pub only_allowed : OnlyAllowed locator allowed fields
  pub privileges : IsPrivilegeSafe kind fields
  pub contract : MeetsContract g "users" fields

-- The rule book of updates: something changes, and the changed columns meet the contract.
pub record IsUpdatable (g : Gate) (kind : String) (fields : Dict Value) : Type 0 where
  pub allowed : List String
  pub known_kind : get user_update_allowlist kind ≡ some allowed
  pub located : has fields "id" ≡ true
  pub changes_something : is_empty (payload_columns locator fields) ≡ false
  pub only_allowed : OnlyAllowed locator allowed fields
  pub privileges : IsPrivilegeSafe kind fields
  pub contract : MeetsContract g "users" (changed_fields locator fields)

pub record IsRemovable (kind : String) (fields : Dict Value) : Type 0 where
  pub known_kind : elem kind ("admin_delete" ∷ []) ≡ true
  pub only_locator : IsLocatorOnly "users" fields

-- The rule book of the door, by the operation.
pub data IsPermitted (g : Gate) (operation kind : String) (fields : Dict Value) : Type 0 where
  insert : operation ≡ "insert" → IsInsertable g kind fields → IsPermitted g operation kind fields
  update : operation ≡ "update" → IsUpdatable g kind fields → IsPermitted g operation kind fields
  delete : operation ≡ "delete" → IsRemovable kind fields → IsPermitted g operation kind fields

pub users_locator : get table_locators "users" ≡ some locator
unfolding table_locators
users_locator = refl

pub columns_agree :
    (fields : Dict Value) (key : String)
    → elem key locator ≡ false
    → elem key (payload_columns locator fields) ≡ has fields key
columns_agree fields key h = let e = elem-payload_columns locator fields key in ground arith

module _ (g : Gate) (has_db : Bool) (source kind : String) (fields : Dict Value) where
  abbrev pub SoundIn : String → Type 0 → Decision → Type 0
  SoundIn operation X = Sound g has_db source "users" operation fields X

  unless_violated-Sound :
      (operation : String) (validated : Dict Value) (X : Type 0) (o : Option String)
      → has fields "id" ≡ true
      → (o ≡ none → MeetsContract g "users" validated → X)
      → Returns
          (SoundIn operation X)
          (unless_violated g has_db source kind locator fields operation validated o)
  unfolding unless_violated
  unless_violated-Sound operation validated X none located x =
      validate_and_sign-Sound g has_db source "users" operation _ validated fields locator X
        users_locator (ground arith) (x refl)
  unless_violated-Sound operation validated X (some reason) located x =
      unfold refuse in reject-Sound g has_db source "users" operation fields _ _ _ _

  insert_user-Sound :
      (allowed : List String)
      → get user_insert_allowlist kind ≡ some allowed
      → has fields "id" ≡ true
      → Returns
          (SoundIn "insert" (IsInsertable g kind fields))
          (insert_user g has_db source kind locator fields allowed)
  unfolding insert_user
  insert_user-Sound allowed known located =
      if_rule (Returns (SoundIn "insert" (IsInsertable g kind fields))) _ _ _
        (λ _. reject_columns-Sound g has_db source "users" "insert" fields _ _ _ _)
        λ only.
          unless_violated-Sound "insert" fields (IsInsertable g kind fields) _ located
            λ unviolated contract. record {
              allowed = allowed;
              known_kind = known;
              located = located;
              only_allowed = disallowed-OnlyAllowed locator allowed fields (not-false only);
              privileges =
                  check_semantic_invariants_safe kind _ fields (columns_agree fields) unviolated;
              contract = contract;
            }

  update_user-Sound :
      (allowed : List String)
      → get user_update_allowlist kind ≡ some allowed
      → has fields "id" ≡ true
      → Returns
          (SoundIn "update" (IsUpdatable g kind fields))
          (update_user g has_db source kind locator fields allowed)
  unfolding update_user refuse
  update_user-Sound allowed known located =
      if_rule (Returns (SoundIn "update" (IsUpdatable g kind fields))) _ _ _
        (λ _. reject-Sound g has_db source "users" "update" fields _ _ _ _)
        λ changes.
          if_rule (Returns (SoundIn "update" (IsUpdatable g kind fields))) _ _ _
            (λ _. reject_columns-Sound g has_db source "users" "update" fields _ _ _ _)
            λ only.
              unless_violated-Sound "update" _ (IsUpdatable g kind fields) _ located
                λ unviolated contract. record {
                  allowed = allowed;
                  known_kind = known;
                  located = located;
                  changes_something = changes;
                  only_allowed = disallowed-OnlyAllowed locator allowed fields (not-false only);
                  privileges =
                      check_semantic_invariants_safe kind _ fields (columns_agree fields)
                        unviolated;
                  contract = contract;
                }

  of_known_kind-Sound :
      (operation : String) (X : Type 0) (branch : List String → Result Decision)
      (o : Option (List String))
      → ((allowed : List String)
          → o ≡ some allowed
          → Returns (SoundIn operation X) (branch allowed))
      → Returns
          (SoundIn operation X)
          (of_known_kind g has_db source kind locator fields operation branch o)
  unfolding of_known_kind refuse
  of_known_kind-Sound operation X branch none sound =
      reject-Sound g has_db source "users" operation fields _ _ _ _
  of_known_kind-Sound operation X branch (some allowed) sound = sound allowed refl

  delete_user-Sound :
      Returns
        (SoundIn "delete" (IsRemovable kind fields))
        (delete_user g has_db source kind locator fields)
  unfolding delete_user refuse
  delete_user-Sound =
      if_rule (Returns (SoundIn "delete" (IsRemovable kind fields))) _ _ _
        (λ _. reject-Sound g has_db source "users" "delete" fields _ _ _ _)
        λ known.
          Returns-Sound_map g has_db source "users" "delete" fields (IsLocatorOnly "users" fields)
            {Y = IsRemovable kind fields}
            (λ only. record { known_kind = not-false known; only_locator = only }) _
            (locator_only-Sound g has_db source "users" "delete" _ locator fields users_locator
              refl)

  abbrev pub SoundWrite : String → Decision → Type 0
  SoundWrite operation = SoundIn operation (IsPermitted g operation kind fields)

  as_permitted :
      (operation op : String) (X : Type 0) (m : Result Decision)
      → operation == op ≡ true
      → (operation ≡ op → X → IsPermitted g operation kind fields)
      → Returns (SoundIn op X) m
      → Returns (SoundWrite operation) m
  as_permitted operation op X m test permitted sound =
      let e : operation ≡ op = (eq_iff operation op).0 test in
      Returns-Sound_map g has_db source "users" operation fields X
        {Y = IsPermitted g operation kind fields} (permitted e) m
        (subst (λ o. Returns (SoundIn o X) m) (sym e) sound)

  dispatch-Sound :
      (operation : String)
      → has fields "id" ≡ true
      → Returns (SoundWrite operation) (dispatch g has_db source kind locator fields operation)
  unfolding dispatch refuse
  dispatch-Sound operation located =
      if_rule (Returns (SoundWrite operation)) _ _ _
        (λ test. as_permitted operation "insert" (IsInsertable g kind fields) _ test insert (
          of_known_kind-Sound "insert" (IsInsertable g kind fields) _ _
            λ allowed known. insert_user-Sound allowed known located))
        λ _.
          if_rule (Returns (SoundWrite operation)) _ _ _
            (λ test. as_permitted operation "update" (IsUpdatable g kind fields) _ test update (
              of_known_kind-Sound "update" (IsUpdatable g kind fields) _ _
                λ allowed known. update_user-Sound allowed known located))
            λ _.
              if_rule (Returns (SoundWrite operation)) _ _ _
                (λ test.
                  as_permitted operation "delete" (IsRemovable kind fields) _ test delete
                    delete_user-Sound)
                λ _. reject-Sound g has_db source "users" operation fields _ _ _ _

  -- The user door raises nothing. Its decision is a signed pass with no reject row or a rejection
  -- with a reason and, given a session, one reject row; and it passes only what the rule book of
  -- the operation permits: a known kind for the operation, the locator column, no column outside
  -- the kind's allowlist, privileged columns only from the kinds that may write them, fields that
  -- meet the column contract; for a deletion the locator column and nothing else.
  pub authorize_user_write-Sound :
      (operation : String)
      → Returns (SoundWrite operation) (authorize_user_write g has_db source operation kind fields)
  unfolding authorize_user_write with_locator
  authorize_user_write-Sound operation =
      rw (users_locator, authorize_user_write)
        (if_rule (Returns (SoundWrite operation)) _ _ _
          (λ _. reject-Sound g has_db source "users" operation fields _ _ _ _)
          λ located.
            let present : all (has fields) locator ≡ true =
              sym (is_empty-missing locator fields) ∙ not-false located in
            dispatch-Sound operation (ground arith))
