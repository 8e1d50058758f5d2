-- ===== src/Users/Changes.antt =====
-- What creating and deleting an account by berth-hub/src/routes/users.rs changes.
use oxde.Prelude.{
  ℕ, String, ◌≡◌, ◌≢◌, refl, sym, ap, ◌∙◌, ◌⊎◌, inl, inr, not, Option, none, some, List, [], ◌∷◌,
  ◌++◌, arith, ◌==◌, str_eq, eq_iff, find, filter, Bool-cases, Option-cases,
}
use oxde.Prelude.Find.{
  find-append_absent, find-append_other, find-append_found, some_inj, find-none, find-filter_kept,
  find-filter_gone,
}
use oxde.Prelude.Int.{ℤ}
use oxde.Prelude.Result.{ok, ok_or, >>=-eq-ok, >>-eq-ok, ensure-eq-ok, ok_or-eq-ok, ok_inj, map_err}
use oxde.Error.{AppError}
use oxde.Db.{Db, User, AppPermission}
use oxde.Db.Query.{user_named}
use oxde.Accounts
use oxde.Accounts.{
  AccountRole, admin, member, PasswordHashing, CurrentUser, require_admin, require_role_admin,
  as_str, from_str-as_str, validate_password, validate_username,
}
use oxde.Auth.{revoke_sessions_for}
use oxde.Auth.Login.{UserView}
use oxde.Users.{Hub, CreateUserRequest, create_user, delete_user}
use oxde.Users.Updates.{IsKeyed}

-- The database gives a new row an id that no account has.
abbrev pub IsFreshId : Db → ℕ → Type 0
IsFreshId db id = (name : String) (u : User) → user_named db name ≡ some u → u.id ≢ id

pub created_lookup :
    (db : Db) (row : User) (name : String) (u : User)
    → user_named (record db { users = db.users ++ row ∷ [] }) name ≡ some u
    → (user_named db name ≡ some u) ⊎ ((name ≡ row.username) × (u ≡ row))
created_lookup db row name u e = elim (Option-cases (user_named db name)) [
  | inr (v, found) ↦ inl (found ∙ sym (find-append_found _ db.users row found) ∙ e)
  | inl absent ↦ elim (Bool-cases (str_eq row.username name)) [
    | inl here ↦
        let placed =
          find-append_absent (λ u. str_eq u.username name) db.users row
            (find-none _ db.users absent) here in
        inr (ground (arith, here, eq_iff row.username name), some_inj (sym e ∙ placed))
    | inr other ↦ inl (sym (find-append_other (λ u. str_eq u.username name) db.users row other) ∙ e)
  ]
]

pub created-IsKeyed :
    (db : Db) (row : User)
    → IsFreshId db row.id
    → IsKeyed db
    → IsKeyed (record db { users = db.users ++ row ∷ [] })
created-IsKeyed db row fresh keyed m n u v em en same =
    let second = created_lookup db row n v en in
    elim (created_lookup db row m u em) [
      | inl a ↦ elim second [
        | inl b ↦ keyed m n u v a b same
        | inr (_, b) ↦ absurd (fresh m u a (same ∙ ap (λ x. x.id) b))
      ]
      | inr (name, a) ↦ elim second [
        | inl b ↦ absurd (fresh n v b (sym same ∙ ap (λ x. x.id) a))
        | inr (other, _) ↦ name ∙ sym other
      ]
    ]

pub create_inv :
    (h : PasswordHashing) (hub next : Hub) (current : CurrentUser) (body : CreateUserRequest)
    (salt : String) (row_id : ℕ) (now : ℤ) (view : UserView)
    → create_user h hub current body salt row_id now ≡ ok (next, view)
    → (row : User) × (row.id ≡ row_id)
      × (require_admin current ≡ ok tt)
      × (next.db ≡ record hub.db { users = hub.db.users ++ row ∷ [] })
unfolding create_user
create_inv h hub next current body salt row_id now view e =
    let (allowed, e1) = >>-eq-ok (require_admin current) _ e in
    let (_, e2) = >>-eq-ok (validate_username body.username) _ e1 in
    let (_, e3) = >>-eq-ok (validate_password body.password) _ e2 in
    let (role, _, e4) = >>=-eq-ok (Accounts.from_str body.role) _ e3 in
    let (_, e5) = ensure-eq-ok _ _ _ e4 in
    let (password_hash, _, stored) =
      >>=-eq-ok (map_err AppError.password_hash (h.hash_password salt body.password)) _ e5 in
    (_, refl, allowed, sym (ap (λ x. x.0.db) (ok_inj stored)))

-- What `delete_user` has checked, and what it leaves.
pub record Deleted (hub next : Hub) (current : CurrentUser) (username : String) : Type 0 where
  pub user : User
  pub found : user_named hub.db username ≡ some user
  pub allowed : require_admin current ≡ ok tt
  pub revoked : next.auth ≡ revoke_sessions_for hub.auth username
  pub another : username ≢ current.username
  pub stored : next.db ≡ record hub.db {
    permissions = filter (λ p. not (p.user_id == user.id)) hub.db.permissions;
    users = filter (λ u. not (str_eq u.username username)) hub.db.users;
  }

pub delete_inv :
    (hub next : Hub) (current : CurrentUser) (username : String)
    → delete_user hub current username ≡ ok next
    → Deleted hub next current username
unfolding delete_user
delete_inv hub next current username e =
    let (allowed, e1) = >>-eq-ok (require_admin current) _ e in
    let (another, e2) = ensure-eq-ok (not (str_eq username current.username)) _ _ e1 in
    let (user, found, stored) =
      >>=-eq-ok (ok_or (user_named hub.db username) (AppError.user_not_found username)) _ e2 in
    record {
      user = user;
      found = ok_or-eq-ok _ _ found;
      allowed = allowed;
      another = λ same. ground (arith, another, same, eq_iff username current.username);
      stored = sym (ap (λ x. x.db) (ok_inj stored));
      revoked = sym (ap (λ x. x.auth) (ok_inj stored));
    }

pub deleted_absent :
    (users : List User) (username : String)
    → find (λ u. str_eq u.username username) (filter (λ u. not (str_eq u.username username)) users)
      ≡ none
deleted_absent users username =
    find-filter_gone _ (λ u. not (str_eq u.username username)) users (λ u e. rw e refl)

pub deleted_other :
    (users : List User) (username name : String)
    → name ≢ username
    → find (λ u. str_eq u.username name) (filter (λ u. not (str_eq u.username username)) users)
      ≡ find (λ u. str_eq u.username name) users
deleted_other users username name other =
    find-filter_kept _ (λ u. not (str_eq u.username username)) users
      (λ u e. ground (arith, e, other, eq_iff u.username name, eq_iff u.username username))

none-some : {u : User} → ◌≡◌ {A = Option User} none (some u) → ⊥
none-some e = cc

pub deleted-IsKeyed :
    (db : Db) (username : String) (permissions : List AppPermission)
    → IsKeyed db
    → IsKeyed (record db {
      permissions = permissions;
      users = filter (λ u. not (str_eq u.username username)) db.users;
    })
deleted-IsKeyed db username _ keyed m n u v em en same =
    keyed m n u v (was m u em) (was n v en) same
  where
    was :
        (name : String) (u : User)
        → find
            (λ u. str_eq u.username name)
            (filter (λ u. not (str_eq u.username username)) db.users)
          ≡ some u
        → user_named db name ≡ some u
    was name u e = elim (Bool-cases (str_eq name username)) [
      | inl here ↦
          let same_name : name ≡ username = ground (arith, here, eq_iff name username) in
          let gone = rw same_name at e in
          absurd (none-some (sym (deleted_absent db.users username) ∙ gone))
      | inr other ↦
          sym (
            deleted_other db.users username name
              (λ s. ground (arith, other, s, eq_iff name username)))
          ∙ e
    ]
