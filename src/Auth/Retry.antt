-- ===== src/Auth/Retry.antt =====
-- The waiting time that a locked-out login is told (berth-hub/src/auth.rs).
use oxde.Prelude.{ℕ, ◌+◌, ◌*◌, ◌/◌, ◌≤◌, ◌≡◌, false, Option, none, some, arith}
use oxde.Prelude.Int.{ℤ, pos, negsuc, ◌+ℤ◌, ◌≤ℤ◌, ◌<ℤ◌, ◌-ℤ◌, int_laws}
use oxde.Prelude.Result.{ok, err}
use oxde.Error.{AppError}
use oxde.Net.{IpAddr}
use oxde.Auth.{AuthState, LoginAttempts, check_login_lockout, check_attempts, is_expired, div_ℤ}
use oxde.Auth.Clock.{not_over_sound, over_complete}

-- Seconds rounded up to minutes.
minutes_round_up :
    (secs : ℤ) (m : ℕ)
    → pos 0 ≤ℤ secs
    → div_ℤ (secs +ℤ pos 59) 60 ≡ pos m
    → (secs ≤ℤ pos (m * 60)) × (pos (m * 60) ≤ℤ secs +ℤ pos 59)
unfolding ◌+ℤ◌
minutes_round_up (pos n) m nonneg e = ground arith
minutes_round_up (negsuc n) m nonneg e = absurd (omega arith)

minutes_at_most :
    (secs : ℤ)
    → pos 0 ≤ℤ secs
    → secs ≤ℤ pos 900
    → (k : ℕ) × (div_ℤ (secs +ℤ pos 59) 60 ≡ pos k) × (k ≤ 15)
unfolding ◌+ℤ◌
minutes_at_most (pos n) nonneg small = ((n + 59) / 60, ground arith, omega arith)
minutes_at_most (negsuc n) nonneg small = absurd (omega arith)

-- What a refusal says of the entry that it comes from.
refusal_inv :
    (now : ℤ) (a : LoginAttempts) (minutes : ℤ)
    → check_attempts now (some a) ≡ err (AppError.too_many_login_attempts minutes)
    → (is_expired now a ≡ false)
      × (div_ℤ (pos 900 -ℤ (now -ℤ a.window_start) +ℤ pos 59) 60 ≡ minutes)
unfolding check_attempts
refusal_inv now a minutes h = ground arith

module _ (now : ℤ) (a : LoginAttempts) where
  attempts_wait :
      (m : ℕ) (later : ℤ)
      → check_attempts now (some a) ≡ err (AppError.too_many_login_attempts (pos m))
      → now +ℤ pos (m * 60) <ℤ later
      → check_attempts later (some a) ≡ ok tt
  unfolding check_attempts
  attempts_wait m later refused waited =
      let (running, told) = refusal_inv now a (pos m) refused in
      let early = not_over_sound (pos 900) a.window_start now running in
      let (up, _) = minutes_round_up (pos 900 -ℤ (now -ℤ a.window_start)) m (omega int_laws) told in
      let over = over_complete (pos 900) a.window_start later (omega int_laws) in ground arith

  attempts_minutes :
      {minutes : ℤ}
      → a.window_start ≤ℤ now
      → check_attempts now (some a) ≡ err (AppError.too_many_login_attempts minutes)
      → (k : ℕ) × (minutes ≡ pos k) × (k ≤ 15)
  attempts_minutes {minutes} opened refused =
      let (running, told) = refusal_inv now a minutes refused in
      let early = not_over_sound (pos 900) a.window_start now running in
      rw (← told)
        (minutes_at_most (pos 900 -ℤ (now -ℤ a.window_start)) (omega int_laws) (omega int_laws))

check_none : (now : ℤ) {e : AppError} → check_attempts now none ≡ err e → ⊥
unfolding check_attempts
check_none now h = cc

-- A refused address that waits the minutes it is told, and a second more, is let in again if
-- nothing has touched its entry.
pub retry_after_suffices :
    (state : AuthState) (now later : ℤ) (ip : IpAddr) (m : ℕ)
    → check_login_lockout state now ip ≡ err (AppError.too_many_login_attempts (pos m))
    → now +ℤ pos (m * 60) <ℤ later
    → check_login_lockout state later ip ≡ ok tt
unfolding check_login_lockout
retry_after_suffices state now later ip m refused waited = go (state.login_attempts ip) refused
  where
    go :
        (o : Option LoginAttempts)
        → check_attempts now o ≡ err (AppError.too_many_login_attempts (pos m))
        → check_attempts later o ≡ ok tt
    go none h = absurd (check_none now h)
    go (some a) h = attempts_wait now a m later h waited

-- In the last second of a full window the address is still refused, and told to wait 0 minutes.
pub refused_for_zero_minutes :
    (state : AuthState) (now : ℤ) (ip : IpAddr) (a : LoginAttempts)
    → state.login_attempts ip ≡ some a
    → 10 ≤ a.count
    → now ≡ a.window_start +ℤ pos 900
    → check_login_lockout state now ip ≡ err (AppError.too_many_login_attempts (pos 0))
unfolding check_login_lockout check_attempts
refused_for_zero_minutes state now ip a found full last =
    let elapsed : a.window_start +ℤ pos 900 -ℤ a.window_start ≡ pos 900 = omega int_laws in
    rw (found, last, elapsed) (unfold ◌-ℤ◌ ◌+ℤ◌ in ground arith)

-- The minutes that a refused address is told are between 0 and 15, if the clock has not been set
-- back past the opening of its window.
pub retry_minutes_bound :
    (state : AuthState) (now minutes : ℤ) (ip : IpAddr) (a : LoginAttempts)
    → state.login_attempts ip ≡ some a
    → a.window_start ≤ℤ now
    → check_login_lockout state now ip ≡ err (AppError.too_many_login_attempts minutes)
    → (k : ℕ) × (minutes ≡ pos k) × (k ≤ 15)
unfolding check_login_lockout
retry_minutes_bound state now minutes ip a found opened refused =
    attempts_minutes now a opened (rw found at refused)
