-- ===== src/Auth/Sweep.antt =====
-- `sweep_expired_login_attempts` of berth-hub/src/auth.rs and the logins that follow it.
use oxde.Prelude.{◌≡◌, refl, ap, inl, inr, true, not, Option, none, some, Bool-cases, keep_if}
use oxde.Prelude.Int.{ℤ, pos, ◌≤ℤ◌, int_laws}
use oxde.Net.{IpAddr, ip_eq_iff}
use oxde.Auth.{
  AuthState, LoginAttempts, check_login_lockout, check_attempts, record_failed_login, one_more,
  is_expired, sweep_expired_login_attempts,
}
use oxde.Auth.Clock.{IsOver-sound, over_complete}

abbrev swept : ℤ → Option LoginAttempts → Option LoginAttempts
swept now = keep_if (λ a. not (is_expired now a))

still_expired :
    (now later : ℤ) (a : LoginAttempts)
    → now ≤ℤ later
    → is_expired now a ≡ true
    → is_expired later a ≡ true
still_expired now later a after gone =
    let over = IsOver-sound (pos 900) a.window_start now gone in
    over_complete (pos 900) a.window_start later (omega int_laws)

swept_check :
    (now later : ℤ) (o : Option LoginAttempts)
    → now ≤ℤ later
    → check_attempts later (swept now o) ≡ check_attempts later o
unfolding check_attempts
swept_check now later none after = refl
swept_check now later (some a) after = elim (Bool-cases (is_expired now a)) [
  | inl gone ↦ rw (gone, still_expired now later a after gone) refl
  | inr live ↦ rw live refl
]

one_more-swept :
    (now later : ℤ) (o : Option LoginAttempts)
    → now ≤ℤ later
    → one_more later (swept now o) ≡ one_more later o
unfolding one_more
one_more-swept now later none after = refl
one_more-swept now later (some a) after = elim (Bool-cases (is_expired now a)) [
  | inl gone ↦ rw (gone, still_expired now later a after gone) refl
  | inr live ↦ rw live refl
]

-- A sweep cannot be told by any later login: at every address, the lockout decides as it would
-- have without the sweep, and a failure then leaves the entry that it would have left.
pub sweep_invisible :
    (state : AuthState) (now later : ℤ) (ip : IpAddr)
    → now ≤ℤ later
    → (check_login_lockout (sweep_expired_login_attempts state now) later ip
        ≡ check_login_lockout state later ip)
      × ((record_failed_login (sweep_expired_login_attempts state now) later ip).login_attempts ip
          ≡ (record_failed_login state later ip).login_attempts ip)
unfolding check_login_lockout record_failed_login sweep_expired_login_attempts
sweep_invisible state now later ip after = (
  swept_check now later (state.login_attempts ip) after,
  rw ((ip_eq_iff ip ip).1 refl)
      (ap some (one_more-swept now later (state.login_attempts ip) after)),
)
