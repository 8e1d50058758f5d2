-- ===== src/Auth/Clock.antt =====
-- Ages against limits: the tests that `auth.rs` makes on differences of clock readings.
use oxde.Prelude.{◌≡◌, true, false, arith}
use oxde.Prelude.Int.{ℤ, ◌-ℤ◌, ◌+ℤ◌, ◌<ℤ◌, ◌≤ℤ◌, ltb_ℤ, -ℤ_parts, +ℤ_parts}

-- More than `limit` seconds have passed since `start`.
abbrev pub IsOver : ℤ → ℤ → ℤ → Type 0
IsOver limit start now = start +ℤ limit <ℤ now

module _ (limit start now : ℤ) where
  pub IsOver-sound : ltb_ℤ limit (now -ℤ start) ≡ true → IsOver limit start now
  IsOver-sound h = ground (arith, -ℤ_parts now start, +ℤ_parts start limit)

  pub over_complete : IsOver limit start now → ltb_ℤ limit (now -ℤ start) ≡ true
  over_complete h = ground (arith, -ℤ_parts now start, +ℤ_parts start limit)

  pub not_over_sound : ltb_ℤ limit (now -ℤ start) ≡ false → now ≤ℤ start +ℤ limit
  not_over_sound h = ground (arith, -ℤ_parts now start, +ℤ_parts start limit)

  pub not_over_complete : now ≤ℤ start +ℤ limit → ltb_ℤ limit (now -ℤ start) ≡ false
  not_over_complete h = ground (arith, -ℤ_parts now start, +ℤ_parts start limit)
