-- ===== src/Auth/Tests.antt =====
-- Sessions, the lockout and the same-origin check of berth-hub/src/auth.rs on concrete requests.
use oxde.Prelude.{
  ℕ, ◌≤◌, String, ◌≡◌, ◌≢◌, refl, sym, ap, ◌∙◌, ◌↔◌, ◌⊎◌, inl, inr, Bool, true, false, Option, none,
  some, List, [], ◌∷◌, arith, ◌==◌, str_eq, insert, string_key, All, if◌then◌else◌,
}
use oxde.Prelude.Int.{ℤ, pos, ◌≤ℤ◌, int_laws}
use oxde.Prelude.Result.{ok, err}
use oxde.Error.{AppError}
use oxde.Http.{HeaderMap, text, Method, header_text}
use oxde.Net.{IpAddr, v4, ip_addr_key}
use oxde.Accounts.{CurrentUser}
use oxde.Db.{Db}
use oxde.Auth.{
  AuthState, LoginAttempts, session_cookie, cookie_value, check_login_lockout, check_attempts,
  record_failed_login, sweep_expired_login_attempts, revoke_sessions_for, revoke_other_sessions_for,
  resolve_cookie_username, verify_same_origin,
}
use oxde.Auth.Login.{LoginRequest, serve_logins}
use oxde.Auth.Lockout.{IsWithin, NoneAccepted, wrong_guesses, wrong_guesses_bound}
use oxde.Auth.Retry.{retry_after_suffices, refused_for_zero_minutes}
use oxde.Auth.Sweep.{sweep_invisible}
use oxde.Auth.Sessions.{IsSession, resolve_cookie_username_iff}
use oxde.Auth.Bearer.{api_user, bearer_user}
use oxde.Auth.SameOrigin.{authenticated_mutation_is_intended}
use oxde.Fixtures.{hashing, root_row, root, bob_row, empty_db, empty_auth}

abbrev ip : IpAddr
ip = v4 (record { a = 10; b = 0; c = 0; d = 1 })

abbrev full : LoginAttempts
full = record { count = 10; window_start = pos 100 }

abbrev locked : AuthState
locked = record empty_auth { login_attempts = insert empty_auth.login_attempts ip full }

locked_out :
    (check_login_lockout locked (pos 200) ip ≡ err (AppError.too_many_login_attempts (pos 14)))
    × (check_login_lockout locked (pos 1001) ip ≡ ok tt)
unfolding check_login_lockout check_attempts oxde.Prelude.Int.◌+ℤ◌ oxde.Prelude.Int.◌-ℤ◌
locked_out = (refl, refl)

retry_after_suffices_example : check_login_lockout locked (pos 1041) ip ≡ ok tt
retry_after_suffices_example =
    retry_after_suffices locked (pos 200) (pos 1041) ip 14 locked_out.0 (omega int_laws)

refused_for_zero_minutes_example :
    check_login_lockout locked (pos 1000) ip ≡ err (AppError.too_many_login_attempts (pos 0))
refused_for_zero_minutes_example =
    refused_for_zero_minutes locked (pos 1000) ip full refl (omega arith) (omega int_laws)

sweep_invisible_example :
    (check_login_lockout (sweep_expired_login_attempts locked (pos 2000)) (pos 2001) ip
      ≡ check_login_lockout locked (pos 2001) ip)
    × ((record_failed_login
            (sweep_expired_login_attempts locked (pos 2000))
            (pos 2001)
            ip).login_attempts
          ip
        ≡ (record_failed_login locked (pos 2001) ip).login_attempts ip)
sweep_invisible_example = sweep_invisible locked (pos 2000) (pos 2001) ip (omega int_laws)

abbrev people : Db
people = record empty_db { users = root_row ∷ bob_row ∷ [] }

abbrev guess : String → ℤ → LoginRequest
guess password now = record {
  ip = ip;
  username = "bob";
  password = password;
  checked_at = now;
  failed_at = now;
  created_at = now;
  token = "t";
}

abbrev guesses : List LoginRequest
guesses = guess "a" (pos 5) ∷ guess "b" (pos 6) ∷ []

in_window : All (IsWithin (pos 0)) guesses
in_window = (
  (omega int_laws, omega int_laws, omega int_laws, omega int_laws),
  ((omega int_laws, omega int_laws, omega int_laws, omega int_laws), tt),
)

none_accepted : NoneAccepted ip (serve_logins hashing people empty_auth guesses)
unfolding serve_logins oxde.Auth.Login.login oxde.Auth.Login.after_lockout
    oxde.Auth.Login.check_credentials check_login_lockout check_attempts record_failed_login
    oxde.Auth.one_more oxde.Prelude.Int.◌-ℤ◌
none_accepted = (refl, (refl, tt))

wrong_guesses_bound_example : wrong_guesses ip (serve_logins hashing people empty_auth guesses) ≤ 10
wrong_guesses_bound_example =
    wrong_guesses_bound hashing people (pos 0) ip empty_auth guesses refl in_window none_accepted

abbrev headers : String → HeaderMap
headers value name =
    if str_eq name "cookie"
    then some (text value)
    else if str_eq name "sec-fetch-site"
    then some (text "same-origin")
    else none

abbrev signed_in : AuthState
signed_in = record empty_auth {
  sessions =
      insert (insert empty_auth.sessions "t1" (record { username = "bob"; created_at = pos 7 }))
        "t2" (record { username = "root"; created_at = pos 8 });
}

resolve_cookie_username_iff_example :
    ((resolve_cookie_username signed_in (pos 9) (headers "berth_session=t1")).1 ≡ ok "bob")
    ↔ IsSession signed_in (pos 9) (headers "berth_session=t1") "bob"
resolve_cookie_username_iff_example =
    resolve_cookie_username_iff signed_in (pos 9) (headers "berth_session=t1") "bob"

passes : verify_same_origin Method.post (headers "berth_session=t2") ≡ ok tt
unfolding verify_same_origin oxde.Auth.bearer_token cookie_value oxde.Auth.find_cookie
    oxde.Auth.from_same_origin
passes = refl

authenticated : (api_user hashing people signed_in (pos 9) (headers "berth_session=t2")).1 ≡ ok root
unfolding api_user oxde.Auth.Bearer.or_cookie oxde.Auth.Bearer.load_user_from_bearer
    oxde.Auth.Bearer.token_bearer oxde.Auth.bearer_token oxde.Auth.Login.current_user
    resolve_cookie_username oxde.Auth.resolve_token oxde.Auth.resolve_session
    oxde.Auth.load_current_user oxde.Auth.current_user_of oxde.Accounts.from_str cookie_value
    oxde.Auth.find_cookie oxde.Prelude.Int.◌-ℤ◌
authenticated = refl

authenticated_mutation_is_intended_example :
    (bearer_user hashing people (pos 9) (headers "berth_session=t2") ≡ ok root)
    ⊎ (header_text (headers "berth_session=t2") "sec-fetch-site" ≡ some "same-origin")
authenticated_mutation_is_intended_example =
    authenticated_mutation_is_intended hashing people signed_in (pos 9) Method.post
      (headers "berth_session=t2") root refl passes authenticated
