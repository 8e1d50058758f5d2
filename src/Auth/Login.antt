-- ===== src/Auth/Login.antt =====
-- The handlers of berth-hub/src/routes/auth_routes.rs, and the extractors of berth-hub/src/auth.rs
-- that accept a cookie. A handler's clock readings and its random token are arguments.
use Prim.Native.String.{◌++◌}
use oxde.Prelude.{
  String, Option, none, some, List, [], ◌∷◌, if◌then◌else◌, insert, remove, string_key,
}
use oxde.Prelude.Int.{ℤ}
use oxde.Prelude.Decimal.{decimal_ℤ}
use oxde.Prelude.Result.{ok, err, ◌>>=◌}
use oxde.Error.{AppError, AppResult}
use oxde.Http.{HeaderMap}
use oxde.Net.{IpAddr}
use oxde.Db.{Db, User}
use oxde.Db.Query.{user_named}
use oxde.Accounts.{PasswordHashing, CurrentUser, as_str}
use oxde.Auth.{
  AuthState, Session, session_cookie, session_max_age_secs, check_login_lockout,
  record_failed_login, clear_login_attempts, cookie_value, resolve_cookie_username,
  load_current_user,
}

pub record UserView : Type 0 where
  pub username : String
  pub role : String

pub record LoginReply : Type 0 where
  pub set_cookie : String
  pub view : UserView

-- A request to log in, with the readings of the clock that its handler takes and the token that it
-- draws.
pub record LoginRequest : Type 0 where
  pub ip : IpAddr
  pub username : String
  pub password : String
  pub checked_at : ℤ
  pub failed_at : ℤ
  pub created_at : ℤ
  pub token : String

unfoldable pub session_cookie_header : String → ℤ → String
session_cookie_header token max_age_secs =
    session_cookie
    ++ ("="
        ++ (token
            ++ ("; Path=/; HttpOnly; Secure; SameSite=Lax; Max-Age=" ++ decimal_ℤ max_age_secs)))

abbrev pub clear_session_cookie_header : String
clear_session_cookie_header = "berth_session=; Path=/; HttpOnly; Secure; SameSite=Lax; Max-Age=0"

module _ (h : PasswordHashing) where
  open h use {verify_password}

  abbrev reject_login : AuthState → LoginRequest → AuthState × AppResult LoginReply
  reject_login state r =
      (record_failed_login state r.failed_at r.ip, err AppError.invalid_credentials)

  accept_login : AuthState → LoginRequest → User → AuthState × AppResult LoginReply
  accept_login state r user =
      let cleared = clear_login_attempts state r.ip in
      let session : Session = record { username = user.username; created_at = r.created_at } in
      (
        record cleared { sessions = insert cleared.sessions r.token session },
        ok (record {
          set_cookie = session_cookie_header r.token session_max_age_secs;
          view = record { username = user.username; role = user.role };
        }),
      )

  unfoldable pub check_credentials :
      AuthState → LoginRequest → Option User → AuthState × AppResult LoginReply
  unfolding accept_login
  check_credentials state r none = reject_login state r
  check_credentials state r (some user) =
      if verify_password r.password user.password_hash
      then accept_login state r user
      else reject_login state r

  unfoldable pub after_lockout :
      Db → AuthState → LoginRequest → AppResult (Unit {0}) → AuthState × AppResult LoginReply
  unfolding check_credentials
  after_lockout db state r (err e) = (state, err e)
  after_lockout db state r (ok _) = check_credentials state r (user_named db r.username)

  unfoldable pub login : Db → AuthState → LoginRequest → AuthState × AppResult LoginReply
  unfolding after_lockout
  login db state r = after_lockout db state r (check_login_lockout state r.checked_at r.ip)

  -- Requests one after another, each with its answer.
  unfoldable pub serve_logins :
      Db → AuthState → List LoginRequest → List (LoginRequest × AppResult LoginReply)
  serve_logins db state [] = []
  serve_logins db state (r ∷ rs) =
      let (next, reply) = login db state r in (r, reply) ∷ serve_logins db next rs

remove_token : AuthState → Option String → AuthState
remove_token state none = state
remove_token state (some token) = record state { sessions = remove state.sessions token }

unfoldable pub logout : AuthState → HeaderMap → AuthState × String
unfolding remove_token
logout state headers =
    (remove_token state (cookie_value headers session_cookie), clear_session_cookie_header)

-- `CurrentUser::from_request_parts`
unfoldable pub current_user :
    Db → AuthState → (now : ℤ) → HeaderMap → AuthState × AppResult CurrentUser
current_user db state now headers =
    let (next, username) = resolve_cookie_username state now headers in
    (next, username >>= load_current_user db)

unfoldable pub me : CurrentUser → UserView
me user = record { username = user.username; role = as_str user.role }
