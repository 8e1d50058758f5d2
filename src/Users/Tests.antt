-- ===== src/Users/Tests.antt =====
-- The account handlers of berth-hub/src/routes/users.rs on a small hub.
use oxde.Prelude.{
  String, ◌≡◌, ◌≢◌, refl, sym, ap, ◌∙◌, ◌↔◌, ◌⊎◌, inl, inr, true, not, none, some, [], ◌∷◌, arith,
  ◌==◌, str_eq, eq_iff, Bool-cases, insert, string_key, All, if◌then◌else◌,
}
use oxde.Prelude.Find.{some_inj}
use oxde.Prelude.Int.{ℤ, pos}
use oxde.Prelude.Result.{ok, err}
use oxde.Error.{AppError}
use oxde.Http.{HeaderMap, text}
use oxde.Db.{User}
use oxde.Db.Query.{user_named}
use oxde.Accounts.{
  require_admin, require_role_admin, validate_username, validate_password, from_str, as_str,
}
use oxde.Auth.{
  AuthState, session_cookie, cookie_value, find_cookie, load_current_user, current_user_of,
  revoke_sessions_for, revoke_other_sessions_for,
}
use oxde.Auth.Sessions.{IsSession}
use oxde.Users.{
  Hub, UpdateUserRequest, ChangePasswordRequest, create_user, update_user, change_own_password,
  delete_user, requested_role, requested_password, revoke_others,
}
use oxde.Users.Changes.{IsFreshId}
use oxde.Users.Admins.{IsSound, created, deleted, done, next_step, admin_remains}
use oxde.Users.Sessions.{
  update_user_ends_sessions, delete_user_leaves_nothing, change_own_password_sessions,
}
use oxde.Fixtures.{hashing, root_row, root, bob_row, bob, empty_db, empty_auth}

abbrev cookie : String → HeaderMap
cookie value name = if str_eq name "cookie" then some (text value) else none

abbrev auth : AuthState
auth = record empty_auth {
  sessions =
      insert (insert empty_auth.sessions "t1" (record { username = "bob"; created_at = pos 7 }))
        "t2" (record { username = "bob"; created_at = pos 8 });
}

abbrev before : Hub
before = record { db = record empty_db { users = root_row ∷ [] }; auth = auth }

abbrev with_bob : Hub
with_bob = record { db = record empty_db { users = root_row ∷ bob_row ∷ [] }; auth = auth }

root_only :
    (name : String) (u : User)
    → user_named before.db name ≡ some u
    → (u ≡ root_row) × (name ≡ "root")
root_only name u e = elim (Bool-cases (str_eq "root" name)) [
  | inl here ↦ (sym (some_inj (rw here at e)), ground (arith, here, eq_iff "root" name))
  | inr other ↦ absurd (let missing = rw other at e in cc)
]

before-IsSound : IsSound before.db
before-IsSound = record {
  keyed = λ m n u v em en same. (root_only m u em).1 ∙ sym (root_only n v en).1;
  has_admin = ("root", root_row, refl, refl);
}

before-IsFreshId : IsFreshId before.db 2
before-IsFreshId name u e same =
    let id = ap (λ x. x.id) (root_only name u e).0 in omega (arith, id, same)

created_bob :
    create_user hashing before root
      (record { username = "bob"; password = "bobby"; role = "member" })
      ""
      2
      (pos 5)
    ≡ ok (with_bob, record { username = "bob"; role = "member" })
unfolding create_user require_admin require_role_admin validate_username validate_password from_str
    as_str
created_bob = refl

abbrev without_bob : Hub
without_bob = record { db = before.db; auth = revoke_sessions_for auth "bob" }

deleted_bob : delete_user with_bob root "bob" ≡ ok without_bob
unfolding delete_user require_admin require_role_admin
deleted_bob = refl

root_is_caller :
    (load_current_user before.db "root" ≡ ok root)
    × (load_current_user with_bob.db "root" ≡ ok root)
unfolding load_current_user current_user_of from_str
root_is_caller = (refl, refl)

admin_remains_example : IsSound without_bob.db
admin_remains_example =
    admin_remains hashing before without_bob
      (next_step
        (created root (record { username = "bob"; password = "bobby"; role = "member" }) "" 2
          (pos 5) root_is_caller.0 before-IsFreshId created_bob)
        (next_step (deleted root "bob" root_is_caller.1 deleted_bob) done))
      before-IsSound

abbrev promotion : UpdateUserRequest
promotion = record { role = some "admin"; password = none }

abbrev promoted : Hub
promoted = record {
  db = record empty_db {
    users = root_row ∷ record bob_row { role = "admin"; updated_at = pos 9 } ∷ [];
  };
  auth = revoke_sessions_for auth "bob";
}

promoted_bob :
    update_user hashing with_bob root "bob" promotion "" (pos 9)
    ≡ ok (promoted, record { username = "bob"; role = "admin" })
unfolding update_user requested_role requested_password require_admin require_role_admin from_str
    as_str
promoted_bob = refl

update_user_ends_sessions_example :
    ¬ IsSession promoted.auth (pos 10) (cookie "berth_session=t1") "bob"
update_user_ends_sessions_example =
    update_user_ends_sessions hashing with_bob promoted root "bob" promotion "" (pos 9)
      (record { username = "bob"; role = "admin" }) refl promoted_bob (pos 10)
      (cookie "berth_session=t1")

delete_user_leaves_nothing_example :
    (load_current_user without_bob.db "bob" ≡ err AppError.unauthenticated)
    × ((now : ℤ) (headers : HeaderMap) → ¬ IsSession without_bob.auth now headers "bob")
    × All (λ p. not (p.user_id == 2) ≡ true) without_bob.db.permissions
delete_user_leaves_nothing_example =
    delete_user_leaves_nothing with_bob without_bob root "bob" bob_row refl deleted_bob

abbrev change : ChangePasswordRequest
change = record { current_password = "bobby"; new_password = "robert" }

abbrev rekeyed : Hub
rekeyed = record {
  db = record empty_db {
    users = root_row ∷ record bob_row { password_hash = "robert"; updated_at = pos 9 } ∷ [];
  };
  auth = revoke_other_sessions_for auth "bob" "t2";
}

cookie_t2 : cookie_value (cookie "berth_session=t2") session_cookie ≡ some "t2"
unfolding cookie_value find_cookie
cookie_t2 = refl

changed_bob :
    change_own_password hashing with_bob bob (cookie "berth_session=t2") change "" (pos 9)
    ≡ ok rekeyed
unfolding change_own_password validate_password revoke_others cookie_value find_cookie
changed_bob = refl

change_own_password_sessions_example :
    IsSession rekeyed.auth (pos 10) (cookie "berth_session=t1") "bob" ↔ (
      IsSession auth (pos 10) (cookie "berth_session=t1") "bob"
      × ((bob.username ≢ "bob")
          ⊎ (cookie_value (cookie "berth_session=t1") session_cookie ≡ some "t2")))
change_own_password_sessions_example =
    change_own_password_sessions hashing with_bob rekeyed bob (cookie "berth_session=t2") change ""
      (pos 9) "t2" cookie_t2 changed_bob (pos 10) (cookie "berth_session=t1") "bob"
