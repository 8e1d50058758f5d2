-- ===== src/Auth/Lockout.antt =====
-- The login lockout of berth-hub/src/auth.rs against repeated guesses.
use oxde.Prelude.{
  ℕ, ◌+◌, ◌-◌, ◌≤◌, ◌≡◌, refl, ◌⊎◌, inl, inr, Bool, true, false, ◌&&◌, Option, none, some, List, [],
  ◌∷◌, arith, Bool-cases, All, if◌then◌else◌,
}
use oxde.Prelude.Int.{ℤ, pos, ◌+ℤ◌, ◌≤ℤ◌, int_laws}
use oxde.Prelude.Result.{ok, err}
use oxde.Error.{AppError, AppResult}
use oxde.Net.{IpAddr, ip_addr_key, ip_eq, ip_eq_iff}
use oxde.Db.{Db, User}
use oxde.Db.Query.{user_named}
use oxde.Accounts.{PasswordHashing}
use oxde.Auth.{
  AuthState, LoginAttempts, check_login_lockout, check_attempts, record_failed_login, one_more,
  is_expired, clear_login_attempts,
}
use oxde.Auth.Clock.{not_over_complete}
use oxde.Auth.Login.{
  LoginRequest, LoginReply, login, check_credentials, after_lockout, serve_logins,
}

-- The entry was opened no earlier than `t0`, and stands at the limit or below.
abbrev pub IsFresh : ℤ → Option LoginAttempts → Type 0
IsFresh t0 none = Unit {0}
IsFresh t0 (some a) = (t0 ≤ℤ a.window_start) × (a.count ≤ 10)

abbrev pub budget : Option LoginAttempts → ℕ
budget none = 10
budget (some a) = 10 - a.count

-- The request's clock readings lie in the window that opens at `t0`.
abbrev pub IsWithin : ℤ → LoginRequest → Type 0
IsWithin t0 r =
    (t0 ≤ℤ r.checked_at)
    × (r.checked_at ≤ℤ t0 +ℤ pos 900)
    × (t0 ≤ℤ r.failed_at)
    × (r.failed_at ≤ℤ t0 +ℤ pos 900)

not_expired :
    (t0 now : ℤ) (a : LoginAttempts)
    → t0 ≤ℤ a.window_start
    → now ≤ℤ t0 +ℤ pos 900
    → is_expired now a ≡ false
not_expired t0 now a opened early = not_over_complete (pos 900) a.window_start now (omega int_laws)

-- An attempt that the lockout lets through in the window uses up one of the budget.
one_more-IsFresh :
    (t0 checked failed : ℤ) (o : Option LoginAttempts)
    → IsFresh t0 o
    → checked ≤ℤ t0 +ℤ pos 900
    → t0 ≤ℤ failed
    → failed ≤ℤ t0 +ℤ pos 900
    → check_attempts checked o ≡ ok tt
    → IsFresh t0 (some (one_more failed o)) × (budget (some (one_more failed o)) + 1 ≡ budget o)
unfolding one_more check_attempts
one_more-IsFresh t0 checked failed none fresh c t f h = ((t, omega arith), omega arith)
one_more-IsFresh t0 checked failed (some a) fresh c t f h =
    let open_then = not_expired t0 checked a fresh.0 c in
    let open_now = not_expired t0 failed a fresh.0 f in ground arith

abbrev pub is_rejected : AppResult LoginReply → Bool
is_rejected (err AppError.invalid_credentials) = true
is_rejected _ = false

abbrev pub is_accepted : AppResult LoginReply → Bool
is_accepted (ok _) = true
is_accepted (err _) = false

-- How many passwords were tried from `ip` and found wrong.
abbrev pub wrong_guesses : IpAddr → List (LoginRequest × AppResult LoginReply) → ℕ
wrong_guesses ip [] = 0
wrong_guesses ip ((r, reply) ∷ log) =
    (if ip_eq r.ip ip && is_rejected reply then 1 else 0) + wrong_guesses ip log

abbrev pub NoneAccepted : IpAddr → List (LoginRequest × AppResult LoginReply) → Type 0
NoneAccepted ip = All (λ e. (ip_eq e.0.ip ip && is_accepted e.1) ≡ false)

abbrev entry : AuthState → IpAddr → Option LoginAttempts
entry state ip = state.login_attempts ip

check_refusal :
    (now : ℤ) (o : Option LoginAttempts) {e : AppError}
    → check_attempts now o ≡ err e
    → is_rejected (err e) ≡ false
unfolding check_attempts
check_refusal now none h = cc
check_refusal now (some a) {e} h = ground arith

module _ (t0 : ℤ) (state : AuthState) (r : LoginRequest) (ip : IpAddr) where
  rejected-IsFresh :
      IsFresh t0 (entry state ip)
      → IsWithin t0 r
      → check_login_lockout state r.checked_at r.ip ≡ ok tt
      → IsFresh t0 (entry (record_failed_login state r.failed_at r.ip) ip)
        × ((if ip_eq r.ip ip && true then 1 else 0)
              + 0
              + budget (entry (record_failed_login state r.failed_at r.ip) ip)
            ≤ budget (entry state ip))
  unfolding record_failed_login check_login_lockout
  rejected-IsFresh fresh (_, checked, opened, failed) passed = elim (Bool-cases (ip_eq r.ip ip)) [
    | inl hit ↦
        let same : r.ip ≡ ip = (ip_eq_iff r.ip ip).0 hit in
        let passed_ip : check_attempts r.checked_at (entry state ip) ≡ ok tt = rw same at passed in
        let (still, paid) =
          one_more-IsFresh t0 r.checked_at r.failed_at (entry state ip) fresh checked opened failed
            passed_ip in
        rw (hit, same) (still, omega arith)
    | inr miss ↦ rw miss (fresh, omega arith)
  ]

  cleared-IsFresh :
      IsFresh t0 (entry state ip)
      → ip_eq r.ip ip ≡ false
      → IsFresh t0 (entry (clear_login_attempts state r.ip) ip)
        × (0 + 0 + budget (entry (clear_login_attempts state r.ip) ip) ≤ budget (entry state ip))
  unfolding clear_login_attempts
  cleared-IsFresh fresh other = rw other (fresh, omega arith)

-- How a login ends: refused by the lockout, refused for its password, or accepted.
abbrev Ending : AuthState → LoginRequest → AuthState × AppResult LoginReply → Type 0
Ending state r out =
    ((out.0.login_attempts ≡ state.login_attempts) × (is_rejected out.1 ≡ false))
    ⊎ ((check_login_lockout state r.checked_at r.ip ≡ ok tt)
        × (out.0 ≡ record_failed_login state r.failed_at r.ip)
        × (is_rejected out.1 ≡ true))
    ⊎ ((is_accepted out.1 ≡ true)
        × (is_rejected out.1 ≡ false)
        × (out.0.login_attempts ≡ (clear_login_attempts state r.ip).login_attempts))

module _ (h : PasswordHashing) (state : AuthState) (r : LoginRequest) where
  credentials-Ending :
      (o : Option User)
      → check_login_lockout state r.checked_at r.ip ≡ ok tt
      → Ending state r (check_credentials h state r o)
  unfolding check_credentials
  credentials-Ending none passed = inr (inl (passed, refl, refl))
  credentials-Ending (some user) passed =
      elim (Bool-cases (h.verify_password r.password user.password_hash)) [
        | inl right ↦ rw (right, check_credentials) (inr (inr (refl, refl, refl)))
        | inr wrong ↦ rw (wrong, check_credentials) (inr (inl (passed, refl, refl)))
      ]

  lockout-Ending :
      (db : Db) (c : AppResult (Unit {0}))
      → check_login_lockout state r.checked_at r.ip ≡ c
      → Ending state r (after_lockout h db state r c)
  unfolding after_lockout check_login_lockout
  lockout-Ending db (ok _) e = credentials-Ending (user_named db r.username) e
  lockout-Ending db (err x) e = inl (refl, check_refusal r.checked_at (entry state r.ip) e)

  login-Ending : (db : Db) → Ending state r (login h db state r)
  unfolding login
  login-Ending db = lockout-Ending db (check_login_lockout state r.checked_at r.ip) refl

  module _ (db : Db) (t0 : ℤ) (ip : IpAddr) where
    -- A request in the window leaves the entry of `ip` fresh, and pays for a wrong guess from it.
    login-IsFresh :
        IsFresh t0 (entry state ip)
        → IsWithin t0 r
        → (ip_eq r.ip ip && is_accepted (login h db state r).1) ≡ false
        → IsFresh t0 (entry (login h db state r).0 ip)
          × (wrong_guesses ip ((r, (login h db state r).1) ∷ [])
                + budget (entry (login h db state r).0 ip)
              ≤ budget (entry state ip))
    login-IsFresh fresh within refused = elim (login-Ending db) [
      | inl (same, quiet) ↦ rw (same, quiet) (fresh, ground arith)
      | inr (inl (passed, next, wrong)) ↦
          rw (next, wrong) (rejected-IsFresh t0 state r ip fresh within passed)
      | inr (inr (right, quiet, next)) ↦
          let other : ip_eq r.ip ip ≡ false = ground arith in
          rw (next, quiet, other) (cleared-IsFresh t0 state r ip fresh other)
    ]

module _ (h : PasswordHashing) (db : Db) (t0 : ℤ) (ip : IpAddr) where
  wrong_guesses-le-budget :
      (state : AuthState) (rs : List LoginRequest)
      → IsFresh t0 (entry state ip)
      → All (IsWithin t0) rs
      → NoneAccepted ip (serve_logins h db state rs)
      → wrong_guesses ip (serve_logins h db state rs) ≤ budget (entry state ip)
  unfolding serve_logins
  wrong_guesses-le-budget state [] fresh within refused = omega arith
  wrong_guesses-le-budget state (r ∷ rs) fresh within refused =
      let (still, paid) = login-IsFresh h state r db t0 ip fresh within.0 refused.0 in
      omega
        (arith, paid, wrong_guesses-le-budget (login h db state r).0 rs still within.1 refused.1)

-- Whatever requests reach the login handler in the fifteen minutes from `t0`, from any addresses
-- and with any passwords: from an address with no entry before, of which none is accepted, at most
-- ten passwords are tried and found wrong.
pub wrong_guesses_bound :
    (h : PasswordHashing) (db : Db) (t0 : ℤ) (ip : IpAddr) (state : AuthState)
    (rs : List LoginRequest)
    → state.login_attempts ip ≡ none
    → All (IsWithin t0) rs
    → NoneAccepted ip (serve_logins h db state rs)
    → wrong_guesses ip (serve_logins h db state rs) ≤ 10
wrong_guesses_bound h db t0 ip state rs absent within refused =
    let fresh : IsFresh t0 (entry state ip) = rw absent tt in
    let bound = wrong_guesses-le-budget h db t0 ip state rs fresh within refused in
    rw absent at bound
