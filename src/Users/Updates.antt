-- ===== src/Users/Updates.antt =====
-- What the updates of one account by berth-hub/src/routes/users.rs change.
use mathlib.Core.Path.{subst}
use oxde.Prelude.{
  ℕ, String, ◌≡◌, refl, sym, ap, ◌∙◌, inl, inr, true, not, ◌&&◌, Option, none, some, arith, ◌==◌,
  ==_iff, str_eq, eq_iff, update_where, if◌then◌else◌, Bool-cases,
}
use oxde.Prelude.Find.{map_option, find_sound, find-update_where}
use oxde.Prelude.Int.{ℤ}
use oxde.Prelude.Result.{ok, ok_or, >>=-eq-ok, >>-eq-ok, ensure-eq-ok, ok_or-eq-ok, ok_inj, map_err}
use oxde.Error.{AppError}
use oxde.Db.{Db, User}
use oxde.Db.Query.{user_named}
use oxde.Accounts
use oxde.Accounts.{
  AccountRole, admin, member, PasswordHashing, CurrentUser, require_admin, as_str,
  validate_password, validate_username,
}
use oxde.Http.{HeaderMap}
use oxde.Auth.Login.{UserView}
use oxde.Users.{
  Hub, UpdateUserRequest, ChangePasswordRequest, update_user, change_own_password, is_admin,
  requested_role, requested_password,
}

-- An account's id belongs to one username.
abbrev pub IsKeyed : Db → Type 0
IsKeyed db =
    (m n : String) (u v : User)
    → user_named db m ≡ some u
    → user_named db n ≡ some v
    → u.id ≡ v.id
    → m ≡ n

abbrev pub HasAdmin : Db → Type 0
HasAdmin db = (name : String) × (u : User) × (user_named db name ≡ some u) × (u.role ≡ "admin")

-- What an update of one account does to its row.
pub record IsUpdate (current : CurrentUser) (username : String) (f : User → User) : Type 0 where
  pub keeps_id : (u : User) → (f u).id ≡ u.id
  pub keeps_name : (u : User) → (f u).username ≡ u.username
  pub keeps_own_role :
      username ≡ current.username → (u : User) → u.role ≡ "admin" → (f u).role ≡ "admin"

abbrev pub updated : Db → ℕ → (User → User) → Db
updated db id f = record db { users = update_where (λ u. u.id == id) f db.users }

-- `next` is `hub` with one account updated.
pub record Updated (hub next : Hub) (current : CurrentUser) (username : String) : Type 0 where
  pub user : User
  pub change : User → User
  pub found : user_named hub.db username ≡ some user
  pub is_update : IsUpdate current username change
  pub stored : next.db ≡ updated hub.db user.id change

own_role :
    (current : CurrentUser) (username : String) (role : AccountRole)
    → not (str_eq username current.username && not (is_admin role)) ≡ true
    → username ≡ current.username
    → as_str role ≡ "admin"
unfolding as_str
own_role current username admin allowed own = refl
own_role current username member allowed own =
    absurd (ground (arith, allowed, own, eq_iff username current.username))

role-IsUpdate :
    (current : CurrentUser) (username : String) (o : Option String) (f : User → User)
    → requested_role current username o ≡ ok f
    → IsUpdate current username f
unfolding requested_role
role-IsUpdate current username none f e =
    subst (IsUpdate current username) (ok_inj e)
      (record { keeps_id = λ u. refl; keeps_name = λ u. refl; keeps_own_role = λ _ u r. r })
role-IsUpdate current username (some text) f e =
    let (role, parsed, rest) = >>=-eq-ok (Accounts.from_str text) _ e in
    let (allowed, stored) = ensure-eq-ok _ _ _ rest in
    subst (IsUpdate current username) (ok_inj stored) (record {
      keeps_id = λ u. refl;
      keeps_name = λ u. refl;
      keeps_own_role = λ own u r. own_role current username role allowed own;
    })

password-IsUpdate :
    (h : PasswordHashing) (current : CurrentUser) (username salt : String) (o : Option String)
    (f : User → User)
    → requested_password h current username salt o ≡ ok f
    → IsUpdate current username f
unfolding requested_password
password-IsUpdate h current username salt none f e =
    subst (IsUpdate current username) (ok_inj e)
      (record { keeps_id = λ u. refl; keeps_name = λ u. refl; keeps_own_role = λ _ u r. r })
password-IsUpdate h current username salt (some password) f e =
    let (_, e1) = ensure-eq-ok _ _ _ e in
    let (_, e2) = >>-eq-ok _ _ e1 in
    let (password_hash, _, stored) =
      >>=-eq-ok (map_err AppError.password_hash (h.hash_password salt password)) _ e2 in
    subst (IsUpdate current username) (ok_inj stored)
      (record { keeps_id = λ u. refl; keeps_name = λ u. refl; keeps_own_role = λ _ u r. r })

pub update_inv :
    (h : PasswordHashing) (hub next : Hub) (current : CurrentUser) (username : String)
    (body : UpdateUserRequest) (salt : String) (now : ℤ) (view : UserView)
    → update_user h hub current username body salt now ≡ ok (next, view)
    → Updated hub next current username × (require_admin current ≡ ok tt)
unfolding update_user
update_inv h hub next current username body salt now view e =
    let (allowed, e1) = >>-eq-ok (require_admin current) _ e in
    let (user, found, e2) =
      >>=-eq-ok (ok_or (user_named hub.db username) (AppError.user_not_found username)) _ e1 in
    let (set_role, r, e3) = >>=-eq-ok (requested_role current username body.role) _ e2 in
    let (set_password, p, stored) =
      >>=-eq-ok (requested_password h current username salt body.password) _ e3 in
    let role = role-IsUpdate current username body.role set_role r in
    let password = password-IsUpdate h current username salt body.password set_password p in
    (
      record {
        user = user;
        change = λ u. record (set_password (set_role u)) { updated_at = now };
        found = ok_or-eq-ok _ _ found;
        is_update = record {
          keeps_id = λ u. password.keeps_id (set_role u) ∙ role.keeps_id u;
          keeps_name = λ u. password.keeps_name (set_role u) ∙ role.keeps_name u;
          keeps_own_role =
              λ own u a. password.keeps_own_role own (set_role u) (role.keeps_own_role own u a);
        };
        stored = sym (ap (λ x. x.0.db) (ok_inj stored));
      },
      allowed,
    )

pub change_inv :
    (h : PasswordHashing) (hub next : Hub) (current : CurrentUser) (headers : HeaderMap)
    (body : ChangePasswordRequest) (salt : String) (now : ℤ)
    → change_own_password h hub current headers body salt now ≡ ok next
    → Updated hub next current current.username
unfolding change_own_password
change_inv h hub next current headers body salt now e =
    let (user, found, e1) =
      >>=-eq-ok (ok_or (user_named hub.db current.username) AppError.unauthenticated) _ e in
    let (_, e2) = ensure-eq-ok _ _ _ e1 in
    let (_, e3) = >>-eq-ok (validate_password body.new_password) _ e2 in
    let (password_hash, _, stored) =
      >>=-eq-ok (map_err AppError.password_hash (h.hash_password salt body.new_password)) _ e3 in
    record {
      user = user;
      change = λ u. record u { password_hash = password_hash; updated_at = now };
      found = ok_or-eq-ok _ _ found;
      is_update = record {
        keeps_id = λ u. refl;
        keeps_name = λ u. refl;
        keeps_own_role = λ _ u r. r;
      };
      stored = sym (ap (λ x. x.db) (ok_inj stored));
    }

-- Found by name after an update, an account is what it was, or its updated row.
lookup-updated :
    (current : CurrentUser) (username : String) (db : Db) (id : ℕ) (f : User → User) (name : String)
    → IsUpdate current username f
    → user_named (updated db id f) name
      ≡ map_option (λ u. if u.id == id then f u else u) (user_named db name)
lookup-updated current username db id f name update =
    find-update_where (λ u. str_eq u.username name) (λ u. u.id == id) f db.users
      (λ u. rw (update.keeps_name u) refl)

pub name_found :
    (db : Db) (name : String) (u : User) → user_named db name ≡ some u → u.username ≡ name
name_found db name u e =
    let named = find_sound (λ u. str_eq u.username name) db.users e in
    ground (arith, named, eq_iff u.username name)

module _ (current : CurrentUser) (username : String) (f : User → User)
    (update : IsUpdate current username f) where
  -- A row found after an update was found before it, with the same id.
  updated_source :
      (db : Db) (id : ℕ) (name : String) (v : User)
      → user_named (updated db id f) name ≡ some v
      → (u : User) × (user_named db name ≡ some u) × (u.id ≡ v.id)
  updated_source db id name v e =
      source (user_named db name) (rw (lookup-updated current username db id f name update) at e)
    where
      source :
          (o : Option User)
          → map_option (λ u. if u.id == id then f u else u) o ≡ some v
          → (u : User) × (o ≡ some u) × (u.id ≡ v.id)
      source none s = cc
      source (some u) s = elim (Bool-cases (u.id == id)) [
        | inl e ↦
            let same : f u ≡ v = ground arith in
            (u, refl, sym (update.keeps_id u) ∙ ap (λ x. x.id) same)
        | inr e ↦ let same : u ≡ v = ground arith in (u, refl, ap (λ x. x.id) same)
      ]

  pub updated-IsKeyed : (db : Db) (id : ℕ) → IsKeyed db → IsKeyed (updated db id f)
  updated-IsKeyed db id keyed m n u v em en same =
      let (a, ea, ia) = updated_source db id m u em in
      let (b, eb, ib) = updated_source db id n v en in keyed m n a b ea eb (ia ∙ same ∙ sym ib)

  -- The caller's account remains an admin's through an update of an account.
  pub updated_admin :
      (db : Db) (user row : User)
      → IsKeyed db
      → user_named db username ≡ some user
      → user_named db current.username ≡ some row
      → row.role ≡ "admin"
      → HasAdmin (updated db user.id f)
  updated_admin db user row keyed found own role = elim (Bool-cases (row.id == user.id)) [
    | inl e ↦
        let same =
          keyed username current.username user row found own (sym ((==_iff row.id user.id).0 e)) in
        (
          current.username,
          f row,
          rw (lookup-updated current username db user.id f current.username update, own, e) refl,
          update.keeps_own_role same row role,
        )
    | inr e ↦ (
      current.username,
      row,
      rw (lookup-updated current username db user.id f current.username update, own, e) refl,
      role,
    )
  ]

-- The update that an account makes of itself leaves the roles.
pub own_update_admin :
    (current : CurrentUser) (f : User → User)
    → IsUpdate current current.username f
    → (db : Db) (id : ℕ) → HasAdmin db
    → HasAdmin (updated db id f)
own_update_admin current f update db id (name, row, found, role) =
    elim (Bool-cases (row.id == id)) [
      | inl e ↦ (
        name,
        f row,
        rw (lookup-updated current current.username db id f name update, found, e) refl,
        update.keeps_own_role refl row role,
      )
      | inr e ↦ (
        name,
        row,
        rw (lookup-updated current current.username db id f name update, found, e) refl,
        role,
      )
    ]
