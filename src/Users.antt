-- ===== src/Users.antt =====
-- berth-hub/src/routes/users.rs: the handlers that manage accounts. What a handler draws (a salt,
-- the id of a new row) and the clock's reading are arguments. Every error comes before the first
-- write, so a handler that fails leaves the state as it was and its result is the error alone.
pub mod Updates
pub mod Changes
pub mod Admins
pub mod Sessions
pub mod Tests
use oxde.Prelude.{
  ℕ, String, Bool, true, false, not, ◌&&◌, Option, none, some, List, [], ◌∷◌, ◌++◌, map, ◌==◌,
  str_eq, filter, update_where, if◌then◌else◌, ◌||◌,
}
use oxde.Prelude.Int.{ℤ}
use oxde.Prelude.Text.{is_some, trim, byte_len}
use oxde.Prelude.Result.{Result, ok, err, ◌>>=◌, ◌>>◌, ok_or, map_err, ensure}
use oxde.Error.{AppError, AppResult}
use oxde.Http.{HeaderMap}
use oxde.Db.{Db, User, ApiToken}
use oxde.Db.Query.{user_named}
use oxde.Accounts
use oxde.Accounts.{
  AccountRole, admin, member, as_str, validate_username, validate_password, PasswordHashing,
  CurrentUser, require_admin,
}
use oxde.Auth.{
  AuthState, session_cookie, cookie_value, revoke_sessions_for, revoke_other_sessions_for,
}
use oxde.Auth.Login.{UserView}
use oxde.Storage.Tokens.{TokenDraw, create_api_token, list_api_tokens, revoke_api_token}

-- The hub: its database and the sessions in its memory.
pub record Hub : Type 0 where
  pub db : Db
  pub auth : AuthState

abbrev pub user_view : User → UserView
user_view user = record { username = user.username; role = user.role }

unfoldable pub list_users : Hub → CurrentUser → AppResult (List UserView)
list_users hub current_user = do require_admin current_user; ok (map user_view hub.db.users)

pub record CreateUserRequest : Type 0 where
  pub username : String
  pub password : String
  pub role : String

pub record UpdateUserRequest : Type 0 where
  pub role : Option String
  pub password : Option String

pub record ChangePasswordRequest : Type 0 where
  pub current_password : String
  pub new_password : String

abbrev pub is_admin : AccountRole → Bool
is_admin admin = true
is_admin member = false

-- The update of a row that `update_user` collects.
unfoldable pub requested_role :
    CurrentUser → (username : String) → Option String → AppResult (User → User)
requested_role current_user username none = ok (λ user. user)
requested_role current_user username (some text) = do
  role ← Accounts.from_str text
  ensure (not (str_eq username current_user.username && not (is_admin role)))
      (AppError.forbidden "you can't change your own role")
  ok (λ user. record user { role = as_str role })

unfoldable pub requested_password :
    PasswordHashing
    → CurrentUser
    → (username salt : String) → Option String
    → AppResult (User → User)
requested_password h current_user username salt none = ok (λ user. user)
requested_password h current_user username salt (some password) = do
  ensure (not (str_eq username current_user.username))
      (AppError.forbidden "use the password change form in Settings for your own account")
  validate_password password
  password_hash ← map_err AppError.password_hash (h.hash_password salt password)
  ok (λ user. record user { password_hash = password_hash })

abbrev revoke_if_changed : AuthState → (username : String) → UpdateUserRequest → AuthState
revoke_if_changed auth username body =
    if is_some body.role || is_some body.password then revoke_sessions_for auth username else auth

unfoldable pub revoke_others : AuthState → (username : String) → Option String → AuthState
revoke_others auth username none = auth
revoke_others auth username (some token) = revoke_other_sessions_for auth username token

module _ (h : PasswordHashing) where
  unfoldable pub create_user :
      Hub
      → CurrentUser
      → CreateUserRequest
      → (salt : String) (row_id : ℕ) (now : ℤ) → AppResult (Hub × UserView)
  create_user hub current_user body salt row_id now = do
    require_admin current_user
    validate_username body.username
    validate_password body.password
    role ← Accounts.from_str body.role
    ensure (not (is_some (user_named hub.db body.username)))
        (AppError.user_already_exists body.username)
    password_hash ← map_err AppError.password_hash (h.hash_password salt body.password)
    let user : User = record {
      id = row_id;
      username = body.username;
      password_hash = password_hash;
      role = as_str role;
      created_at = now;
      updated_at = now;
    }
    let db = record hub.db { users = hub.db.users ++ user ∷ [] }
    ok (record hub { db = db }, user_view user)

  unfoldable pub update_user :
      Hub
      → CurrentUser
      → (username : String) → UpdateUserRequest
      → (salt : String) (now : ℤ) → AppResult (Hub × UserView)
  update_user hub current_user username body salt now = do
    require_admin current_user
    user ← ok_or (user_named hub.db username) (AppError.user_not_found username)
    set_role ← requested_role current_user username body.role
    set_password ← requested_password h current_user username salt body.password
    let apply : User → User = λ u. record (set_password (set_role u)) { updated_at = now }
    let db = record hub.db { users = update_where (λ u. u.id == user.id) apply hub.db.users }
    ok (record { db = db; auth = revoke_if_changed hub.auth username body }, user_view (apply user))

  unfoldable pub change_own_password :
      Hub
      → CurrentUser
      → HeaderMap
      → ChangePasswordRequest
      → (salt : String) (now : ℤ) → AppResult Hub
  change_own_password hub current_user headers body salt now = do
    user ← ok_or (user_named hub.db current_user.username) AppError.unauthenticated
    ensure (h.verify_password body.current_password user.password_hash) AppError.invalid_credentials
    validate_password body.new_password
    password_hash ← map_err AppError.password_hash (h.hash_password salt body.new_password)
    let apply : User → User = λ u. record u { password_hash = password_hash; updated_at = now }
    let db = record hub.db { users = update_where (λ u. u.id == user.id) apply hub.db.users }
    let auth = revoke_others hub.auth current_user.username (cookie_value headers session_cookie)
    ok (record { db = db; auth = auth })

unfoldable pub delete_user : Hub → CurrentUser → (username : String) → AppResult Hub
delete_user hub current_user username = do
  require_admin current_user
  ensure (not (str_eq username current_user.username))
      (AppError.forbidden "you can't delete your own account")
  user ← ok_or (user_named hub.db username) (AppError.user_not_found username)
  let db = record hub.db {
    permissions = filter (λ p. not (p.user_id == user.id)) hub.db.permissions;
    users = filter (λ u. not (str_eq u.username username)) hub.db.users;
  }
  ok (record { db = db; auth = revoke_sessions_for hub.auth username })

-- A user's own API tokens

pub record ApiTokenView : Type 0 where
  pub id : ℕ
  pub name : String
  pub expires_at : ℤ
  pub revoked : Bool
  pub created_at : ℤ
  pub updated_at : ℤ

unfoldable pub api_token_view : ApiToken → ApiTokenView
api_token_view token = record {
  id = token.id;
  name = token.name;
  expires_at = token.expires_at;
  revoked = token.revoked;
  created_at = token.created_at;
  updated_at = token.updated_at;
}

unfoldable pub list_own_tokens : Hub → CurrentUser → List ApiTokenView
list_own_tokens hub current_user = map api_token_view (list_api_tokens hub.db current_user.id)

unfoldable pub create_own_token :
    PasswordHashing
    → Hub
    → CurrentUser
    → (name : String) (expires_at : ℤ) → TokenDraw
    → (now max_expiry_days : ℤ) → AppResult (Hub × ApiTokenView × String)
create_own_token h hub current_user name expires_at draw now max_expiry_days = do
  ensure (not (byte_len (trim name) == 0)) (AppError.invalid_name name)
  (db, row, plaintext_token) ←
      create_api_token h hub.db now max_expiry_days draw current_user.id (trim name) expires_at
  ok (record hub { db = db }, api_token_view row, plaintext_token)

unfoldable pub revoke_own_token : Hub → CurrentUser → (now : ℤ) → (id : ℕ) → AppResult Hub
revoke_own_token hub current_user now id = do
  db ← revoke_api_token hub.db now current_user.id id
  ok (record hub { db = db })
