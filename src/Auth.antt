-- ===== src/Auth.antt =====
-- berth-hub/src/auth.rs: sessions, the login lockout, the cookie and bearer credentials of a
-- request, and the same-origin check. The clock's reading is an argument, in epoch seconds.
pub mod Clock
pub mod Login
pub mod Lockout
pub mod Retry
pub mod Sweep
pub mod Sessions
pub mod Bearer
pub mod SameOrigin
pub mod Tests
use oxde.Prelude.{
  ℕ, suc, ◌+◌, ◌/◌, ◌%◌, ◌^◌, String, ◌≡◌, Bool, true, false, not, ◌&&◌, ◌||◌, Option, none, some,
  List, [], ◌∷◌, ltb, ◌==◌, if◌then◌else◌, str_eq, Map, insert, remove, retain, string_key,
}
use oxde.Prelude.Int.{ℤ, pos, negsuc, ◌+ℤ◌, ◌-ℤ◌, ltb_ℤ}
use oxde.Prelude.Result.{Result, ok, err, ◌>>=◌, ok_or}
use oxde.Prelude.Text.{strip_prefix, split, split_once, trim, is_some}
use oxde.Error.{AppError, AppResult}
use oxde.Http.{HeaderMap, header_text, Method}
use oxde.Net.{IpAddr, ip_addr_key}
use oxde.Db.{Db, User}
use oxde.Db.Query.{user_named}
use oxde.Accounts
use oxde.Accounts.{CurrentUser}

abbrev pub session_cookie : String
session_cookie = "berth_session"

abbrev pub session_max_age_secs : ℤ
session_max_age_secs = pos 2592000

pub record Session : Type 0 where
  pub username : String
  pub created_at : ℤ

abbrev pub login_max_failures : ℕ
login_max_failures = 10

abbrev pub login_lockout_window_secs : ℤ
login_lockout_window_secs = pos 900

-- `count` is a `u32`.
pub record LoginAttempts : Type 0 where
  pub count : ℕ
  pub window_start : ℤ

-- The maps of `AppState` (berth-hub/src/state.rs) that authentication reads and writes.
pub record AuthState : Type 0 where
  pub sessions : Map String Session
  pub login_attempts : Map IpAddr LoginAttempts

-- `i64` division, which rounds towards zero
abbrev pub div_ℤ : ℤ → ℕ → ℤ
div_ℤ (pos n) d = pos (n / d)
div_ℤ (negsuc n) d = pos 0 -ℤ pos (suc n / d)

abbrev is_expired : (now : ℤ) → LoginAttempts → Bool
is_expired now attempts = ltb_ℤ login_lockout_window_secs (now -ℤ attempts.window_start)

unfoldable pub check_attempts : (now : ℤ) → Option LoginAttempts → AppResult (Unit {0})
check_attempts now none = ok tt
check_attempts now (some attempts) =
    let elapsed = now -ℤ attempts.window_start in
    let retry_after_secs = login_lockout_window_secs -ℤ elapsed in
    let retry_after_mins = div_ℤ (retry_after_secs +ℤ pos 59) 60 in
    if ltb_ℤ login_lockout_window_secs elapsed || ltb attempts.count login_max_failures
    then ok tt
    else err (AppError.too_many_login_attempts retry_after_mins)

unfoldable pub check_login_lockout : AuthState → (now : ℤ) → IpAddr → AppResult (Unit {0})
unfolding check_attempts
check_login_lockout state now ip = check_attempts now (state.login_attempts ip)

one_more : (now : ℤ) → Option LoginAttempts → LoginAttempts
one_more now none = record { count = 1; window_start = now }
one_more now (some attempts) =
    if is_expired now attempts
    then record { count = 1; window_start = now }
    else record { count = (attempts.count + 1) % 2 ^ 32; window_start = attempts.window_start }

unfoldable pub record_failed_login : AuthState → (now : ℤ) → IpAddr → AuthState
unfolding one_more
record_failed_login state now ip = record state {
  login_attempts = insert state.login_attempts ip (one_more now (state.login_attempts ip));
}

unfoldable pub clear_login_attempts : AuthState → IpAddr → AuthState
clear_login_attempts state ip = record state { login_attempts = remove state.login_attempts ip }

unfoldable pub sweep_expired_login_attempts : AuthState → (now : ℤ) → AuthState
sweep_expired_login_attempts state now = record state {
  login_attempts = retain (λ _ attempts. not (is_expired now attempts)) state.login_attempts;
}

-- Credentials

unfoldable pub find_cookie : String → List String → Option String
find_cookie name [] = none
find_cookie name (pair ∷ pairs) =
    let rest = find_cookie name pairs in
    elim (split_once b'=' (trim pair)) [
      | none ↦ rest
      | some (key, value) ↦ if str_eq key name then some value else rest
    ]

unfoldable pub cookie_value : HeaderMap → (name : String) → Option String
unfolding find_cookie
cookie_value headers name = elim (header_text headers "cookie") [
  | none ↦ none
  | some header ↦ find_cookie name (split b';' header)
]

unfoldable pub bearer_token : HeaderMap → Option String
bearer_token headers = elim (header_text headers "authorization") [
  | none ↦ none
  | some value ↦ strip_prefix "Bearer " value
]

abbrev is_safe : Method → Bool
is_safe Method.get = true
is_safe Method.head = true
is_safe Method.options = true
is_safe _ = false

unfoldable pub from_same_origin : Option String → AppResult (Unit {0})
from_same_origin none = err (AppError.forbidden "cross-origin request rejected")
from_same_origin (some site) =
    if str_eq site "same-origin"
    then ok tt
    else err (AppError.forbidden "cross-origin request rejected")

unfoldable pub verify_same_origin : Method → HeaderMap → AppResult (Unit {0})
unfolding from_same_origin
verify_same_origin method headers =
    if is_safe method
    then ok tt
    else if is_some (bearer_token headers)
    then ok tt
    else if not (is_some (cookie_value headers session_cookie))
    then ok tt
    else from_same_origin (header_text headers "sec-fetch-site")

unfoldable pub resolve_session :
    AuthState → (now : ℤ) → (token : String) → Option Session → AuthState × AppResult String
resolve_session state now token none = (state, err AppError.unauthenticated)
resolve_session state now token (some session) =
    if ltb_ℤ session_max_age_secs (now -ℤ session.created_at)
    then (record state { sessions = remove state.sessions token }, err AppError.unauthenticated)
    else (state, ok session.username)

unfoldable pub resolve_token : AuthState → (now : ℤ) → Option String → AuthState × AppResult String
unfolding resolve_session
resolve_token state now none = (state, err AppError.unauthenticated)
resolve_token state now (some token) = resolve_session state now token (state.sessions token)

unfoldable pub resolve_cookie_username :
    AuthState → (now : ℤ) → HeaderMap → AuthState × AppResult String
unfolding resolve_token
resolve_cookie_username state now headers =
    resolve_token state now (cookie_value headers session_cookie)

unfoldable pub current_user_of : User → AppResult CurrentUser
current_user_of user = do
  role ← Accounts.from_str user.role
  ok (record { id = user.id; username = user.username; role = role })

unfoldable pub load_current_user : Db → (username : String) → AppResult CurrentUser
unfolding current_user_of
load_current_user db username = do
  user ← ok_or (user_named db username) AppError.unauthenticated
  current_user_of user

unfoldable pub revoke_sessions_for : AuthState → (username : String) → AuthState
revoke_sessions_for state username = record state {
  sessions = retain (λ _ session. not (str_eq session.username username)) state.sessions;
}

unfoldable pub revoke_other_sessions_for : AuthState → (username keep_token : String) → AuthState
revoke_other_sessions_for state username keep_token = record state {
  sessions =
      retain (λ token session. not (str_eq session.username username) || str_eq token keep_token)
        state.sessions;
}
