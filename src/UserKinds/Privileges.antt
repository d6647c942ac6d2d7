-- ===== src/UserKinds/Privileges.antt =====
-- What the semantic check of the user door guarantees about privileged columns.
use imperecta.Base.{
  String, ◌≡◌, refl, Bool, true, false, Option, none, some, List, [], ◌∷◌, arith, Dict, has, elem,
  eq_iff, ◌⊎◌, inl, inr, if◌then◌else◌, ◌&&◌, not,
}
use imperecta.Payload.{Value, boolean, read, is_true, is_false}
use imperecta.UserKinds.{may_set_superuser, may_set_active, check_semantic_invariants}

is_false-not_true : (v : Value) → is_false v ≡ true → is_true v ≡ false
is_false-not_true (boolean true) h = absurd (cc)
is_false-not_true (boolean false) h = refl
is_false-not_true _ h = refl

unless : {X : Type 0} (b : Bool) → (b ≡ true → X) → (b ≡ false) ⊎ X
unless true f = inr (f refl)
unless false f = inl refl

may_set_superuser_sound :
    (kind : String) (fields : Dict Value)
    → may_set_superuser kind fields ≡ true
    → elem kind ("admin_create" ∷ "admin_update" ∷ []) ≡ true
unfolding may_set_superuser
may_set_superuser_sound kind fields h = ground arith

may_set_active_sound :
    (kind : String) (fields : Dict Value)
    → may_set_active kind fields ≡ true
    → has fields "is_active" ≡ true
    → (kind ≡ "admin_update") × (is_false (read fields "is_active") ≡ true)
unfolding may_set_active
may_set_active_sound kind fields h e =
    let same = eq_iff kind "admin_update" in (ground arith, ground arith)

may_set_active_complete :
    (kind : String) (fields : Dict Value)
    → kind ≡ "admin_update"
    → is_false (read fields "is_active") ≡ true
    → may_set_active kind fields ≡ true
unfolding may_set_active
may_set_active_complete kind fields same inactive =
    let iff = eq_iff kind "admin_update" in
    let no = is_false-not_true (read fields "is_active") inactive in ground arith

-- The privileged columns of `users` that a payload holds are ones that its kind may write: only the
-- admin kinds set `is_superuser`, and `is_active` is only ever set to `False`, by `admin_update`.
pub record IsPrivilegeSafe (kind : String) (fields : Dict Value) : Type 0 where
  pub superuser :
      (has fields "is_superuser" ≡ false)
      ⊎ (elem kind ("admin_create" ∷ "admin_update" ∷ []) ≡ true)
  pub password_hash :
      (has fields "password_hash" ≡ false)
      ⊎ (elem kind ("register" ∷ "password_change" ∷ "admin_create" ∷ "admin_password_reset" ∷ [])
          ≡ true)
  pub plan :
      (has fields "plan" ≡ false)
      ⊎ (elem kind ("register" ∷ "admin_create" ∷ "admin_update" ∷ []) ≡ true)
  pub active :
      (has fields "is_active" ≡ false)
      ⊎ ((kind ≡ "admin_update") × (is_false (read fields "is_active") ≡ true))

-- no test of the chain applied
none_applies :
    (s w p a t : Bool)
    → ◌≡◌ {A = Option String}
        (if s
          then some "privilege_escalation"
          else if w
          then some "password_hash_forbidden"
          else if p
          then some "plan_forbidden"
          else if a
          then (if t then some "reactivation_forbidden" else some "is_active_forbidden")
          else none)
        none
    → (s ≡ false) × (w ≡ false) × (p ≡ false) × (a ≡ false)
none_applies s w p a t h = (ground arith, ground arith, ground arith, ground arith)

-- a test that did not apply to a column
guarded :
    (changed present may : Bool)
    → changed ≡ present
    → (changed && not may) ≡ false
    → (present ≡ false) ⊎ (may ≡ true)
guarded changed present may same h = ground arith

module _ (kind : String) (changed : List String) (fields : Dict Value)
    (agrees : (key : String)
      → elem key ("id" ∷ []) ≡ false
      → elem key changed ≡ has fields key) where
  pub check_semantic_invariants_safe :
      check_semantic_invariants kind changed fields ≡ none → IsPrivilegeSafe kind fields
  unfolding check_semantic_invariants
  check_semantic_invariants_safe h =
      let (s, w, p, a) = none_applies _ _ _ _ _ h in
      record {
        superuser = elim (guarded _ _ _ (agrees "is_superuser" refl) s) [
          | inl unset ↦ inl unset
          | inr may ↦ inr (may_set_superuser_sound kind fields may)
        ];
        password_hash = guarded _ _ _ (agrees "password_hash" refl) w;
        plan = guarded _ _ _ (agrees "plan" refl) p;
        active = elim (guarded _ _ _ (agrees "is_active" refl) a) [
          | inl unset ↦ inl unset
          | inr may ↦ unless (has fields "is_active") λ e. may_set_active_sound kind fields may e
        ];
      }

  pub check_semantic_invariants_complete :
      IsPrivilegeSafe kind fields → check_semantic_invariants kind changed fields ≡ none
  unfolding check_semantic_invariants may_set_superuser
  check_semantic_invariants_complete p =
      let s = agrees "is_superuser" refl in
      let w = agrees "password_hash" refl in
      let n = agrees "plan" refl in
      let a = agrees "is_active" refl in
      let q1 = p.superuser in
      let q2 = p.password_hash in
      let q3 = p.plan in
      let active : (has fields "is_active" ≡ false) ⊎ (may_set_active kind fields ≡ true) =
        elim p.active [
          | inl unset ↦ inl unset
          | inr (same, inactive) ↦ inr (may_set_active_complete kind fields same inactive)
        ] in
      ground arith
