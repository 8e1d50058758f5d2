-- ===== src/Users/Admins.antt =====
-- Sequences of the requests of berth-hub/src/routes/users.rs, and the admins among the accounts.
use oxde.Prelude.{ℕ, String, ◌≡◌, refl, sym, ap, ◌∙◌, not, some, ◌==◌, filter}
use oxde.Prelude.Find.{find-append_found}
use oxde.Prelude.Int.{ℤ}
use oxde.Prelude.Result.{ok, ok_or, >>=-eq-ok, ok_or-eq-ok, ok_inj}
use oxde.Error.{AppError}
use oxde.Http.{HeaderMap}
use oxde.Db.{Db, User}
use oxde.Db.Query.{user_named}
use oxde.Accounts
use oxde.Accounts.{
  AccountRole, admin, member, PasswordHashing, CurrentUser, require_admin, require_role_admin,
  as_str, from_str-as_str, validate_password, validate_username,
}
use oxde.Auth.{load_current_user, current_user_of}
use oxde.Auth.Login.{UserView}
use oxde.Users.{
  Hub, CreateUserRequest, UpdateUserRequest, ChangePasswordRequest, create_user, update_user,
  change_own_password, delete_user,
}
use oxde.Users.Changes.{
  IsFreshId, created-IsKeyed, create_inv, delete_inv, deleted-IsKeyed, deleted_other,
}
use oxde.Users.Updates.{
  IsKeyed, HasAdmin, update_inv, change_inv, updated-IsKeyed, updated_admin, own_update_admin,
}

-- The caller of a handler: the account that the extractor loaded.
abbrev pub IsCaller : Hub → CurrentUser → Type 0
IsCaller hub current = load_current_user hub.db current.username ≡ ok current

-- A request to manage accounts that is carried out.
pub data UserStep (h : PasswordHashing) : Hub → Hub → Type 0 where
  created :
      {hub next : Hub} {view : UserView} (current : CurrentUser) (body : CreateUserRequest)
      (salt : String) (row_id : ℕ) (now : ℤ)
      → IsCaller hub current
      → IsFreshId hub.db row_id
      → create_user h hub current body salt row_id now ≡ ok (next, view)
      → UserStep h hub next
  changed :
      {hub next : Hub} {view : UserView} (current : CurrentUser) (username : String)
      (body : UpdateUserRequest) (salt : String) (now : ℤ)
      → IsCaller hub current
      → update_user h hub current username body salt now ≡ ok (next, view)
      → UserStep h hub next
  password_changed :
      {hub next : Hub} (current : CurrentUser) (headers : HeaderMap) (body : ChangePasswordRequest)
      (salt : String) (now : ℤ)
      → IsCaller hub current
      → change_own_password h hub current headers body salt now ≡ ok next
      → UserStep h hub next
  deleted :
      {hub next : Hub} (current : CurrentUser) (username : String)
      → IsCaller hub current
      → delete_user hub current username ≡ ok next
      → UserStep h hub next

pub data UserSteps (h : PasswordHashing) : Hub → Hub → Type 0 where
  done : {hub : Hub} → UserSteps h hub hub
  next_step : {a b c : Hub} → UserStep h a b → UserSteps h b c → UserSteps h a c

pub record IsSound (db : Db) : Type 0 where
  pub keyed : IsKeyed db
  pub has_admin : HasAdmin db

admin_only : (role : AccountRole) → require_role_admin role ≡ ok tt → role ≡ admin
unfolding require_role_admin
admin_only admin e = refl
admin_only member e = cc

-- The row of a caller whose role was checked.
caller_row :
    (hub : Hub) (current : CurrentUser)
    → IsCaller hub current
    → require_admin current ≡ ok tt
    → (u : User) × (user_named hub.db current.username ≡ some u) × (u.role ≡ "admin")
unfolding load_current_user current_user_of require_admin as_str
caller_row hub current caller allowed =
    let (u, found, e) =
      >>=-eq-ok (ok_or (user_named hub.db current.username) AppError.unauthenticated) _ caller in
    let (role, parsed, built) = >>=-eq-ok (Accounts.from_str u.role) _ e in
    let same : role ≡ admin = ap (λ x. x.role) (ok_inj built) ∙ admin_only current.role allowed in
    (u, ok_or-eq-ok _ _ found, (from_str-as_str admin u.role).0 (parsed ∙ ap ok same))

module _ (h : PasswordHashing) where
  create-IsSound :
      (hub next : Hub) (view : UserView) (current : CurrentUser) (body : CreateUserRequest)
      (salt : String) (row_id : ℕ) (now : ℤ)
      → IsCaller hub current
      → IsFreshId hub.db row_id
      → create_user h hub current body salt row_id now ≡ ok (next, view)
      → IsSound hub.db
      → IsSound next.db
  create-IsSound hub next view current body salt row_id now caller fresh e sound =
      let (row, id, allowed, stored) = create_inv h hub next current body salt row_id now view e in
      let (u, found, role) = caller_row hub current caller allowed in
      rw stored (record {
        keyed = created-IsKeyed hub.db row (rw id fresh) sound.keyed;
        has_admin = (current.username, u, find-append_found _ hub.db.users row found, role);
      })

  change-IsSound :
      (hub next : Hub) (view : UserView) (current : CurrentUser) (username : String)
      (body : UpdateUserRequest) (salt : String) (now : ℤ)
      → IsCaller hub current
      → update_user h hub current username body salt now ≡ ok (next, view)
      → IsSound hub.db
      → IsSound next.db
  change-IsSound hub next view current username body salt now caller e sound =
      let (r, allowed) = update_inv h hub next current username body salt now view e in
      let (u, found, role) = caller_row hub current caller allowed in
      rw r.stored (record {
        keyed = updated-IsKeyed current username r.change r.is_update hub.db r.user.id sound.keyed;
        has_admin =
            updated_admin current username r.change r.is_update hub.db r.user u sound.keyed r.found
              found role;
      })

  password-IsSound :
      (hub next : Hub) (current : CurrentUser) (headers : HeaderMap) (body : ChangePasswordRequest)
      (salt : String) (now : ℤ)
      → change_own_password h hub current headers body salt now ≡ ok next
      → IsSound hub.db
      → IsSound next.db
  password-IsSound hub next current headers body salt now e sound =
      let r = change_inv h hub next current headers body salt now e in
      rw r.stored (record {
        keyed =
            updated-IsKeyed current current.username r.change r.is_update hub.db r.user.id
              sound.keyed;
        has_admin = own_update_admin current r.change r.is_update hub.db r.user.id sound.has_admin;
      })

delete-IsSound :
    (hub next : Hub) (current : CurrentUser) (username : String)
    → IsCaller hub current
    → delete_user hub current username ≡ ok next
    → IsSound hub.db
    → IsSound next.db
delete-IsSound hub next current username caller e sound =
    let r = delete_inv hub next current username e in
    let (u, found, role) = caller_row hub current caller r.allowed in
    rw r.stored (record {
      keyed =
          deleted-IsKeyed hub.db username
            (filter (λ p. not (p.user_id == r.user.id)) hub.db.permissions) sound.keyed;
      has_admin = (
        current.username,
        u,
        deleted_other hub.db.users username current.username (λ same. r.another (sym same)) ∙ found,
        role,
      );
    })

step-IsSound :
    (h : PasswordHashing) (hub next : Hub) → UserStep h hub next → IsSound hub.db → IsSound next.db
step-IsSound h hub next (created {view} current body salt row_id now caller fresh e) =
    create-IsSound h hub next view current body salt row_id now caller fresh e
step-IsSound h hub next (changed {view} current username body salt now caller e) =
    change-IsSound h hub next view current username body salt now caller e
step-IsSound h hub next (password_changed current headers body salt now _ e) =
    password-IsSound h hub next current headers body salt now e
step-IsSound h hub next (deleted current username caller e) =
    delete-IsSound hub next current username caller e

-- From a database whose account ids belong to one username each and that has an admin, every
-- sequence of account requests, by any callers, that are carried out leads to such a database.
pub admin_remains :
    (h : PasswordHashing) (hub next : Hub) → UserSteps h hub next → IsSound hub.db → IsSound next.db
admin_remains h hub next done sound = sound
admin_remains h hub next (next_step {b} step steps) sound =
    admin_remains h b next steps (step-IsSound h hub b step sound)
