-- ===== src/ApiTokens.antt =====
-- berth-hub/src/api_tokens.rs: the text form of a token and its expiry. `i64` arithmetic wraps.
use Prim.Native.String.{[], ◌∷◌, ◌++◌}
use text.Mathlib.TextLemmas.{nil-append, cons-append}
use oxde.Prelude.{
  ℕ, String, code, ◌≡◌, ◌≢◌, refl, ◌↔◌, ◌&&◌, Option, none, some, arith, if◌then◌else◌, not,
}
use oxde.Prelude.Int.{ℤ, pos, ◌+ℤ◌, ◌*ℤ◌, ◌≤ℤ◌, ◌<ℤ◌, ltb_ℤ, wrap_i64, wrap_i64_id, IsI64}
use oxde.Prelude.Result.{ok, err}
use oxde.Prelude.Text.{strip_prefix, split_once}
use oxde.Error.{AppError, AppResult}

abbrev pub token_prefix : String
token_prefix = "berth_"

unfoldable pub validate_expiry : (now expires_at max_expiry_days : ℤ) → AppResult (Unit {0})
validate_expiry now expires_at max_expiry_days =
    let max_expires_at = wrap_i64 (now +ℤ wrap_i64 (max_expiry_days *ℤ pos 86400)) in
    if ltb_ℤ now expires_at && not (ltb_ℤ max_expires_at expires_at)
    then ok tt
    else err (AppError.invalid_token_expiry expires_at)

unfoldable pub parse_bearer_value : String → Option (String × String)
parse_bearer_value value = elim (strip_prefix token_prefix value) [
  | none ↦ none
  | some rest ↦ split_once b'.' rest
]

unfoldable pub format_token : (token_id secret : String) → String
format_token token_id secret = token_prefix ++ (token_id ++ ("." ++ secret))

-- No character of the text is `c`.
abbrev pub Without : ℕ → String → Type 0
Without c [] = Unit
Without c (d ∷ s) = (code d ≢ c) × Without c s

strip_prefix-append : (p s : String) → strip_prefix p (p ++ s) ≡ some s
strip_prefix-append [] s = rw nil-append refl
strip_prefix-append (c ∷ p) s = rw cons-append (ground (arith, strip_prefix-append p s))

split_once-append :
    (a b : String) → Without b'.' a → split_once b'.' (a ++ ("." ++ b)) ≡ some (a, b)
split_once-append [] b h = rw (nil-append, cons-append, nil-append) refl
split_once-append (c ∷ a) b h = rw cons-append (ground (arith, split_once-append a b h.1))

-- A printed token parses back to the two halves that it was made of, if the first has no dot.
pub parse_bearer_value-format_token :
    (token_id secret : String)
    → Without b'.' token_id
    → parse_bearer_value (format_token token_id secret) ≡ some (token_id, secret)
unfolding parse_bearer_value format_token
parse_bearer_value-format_token token_id secret h =
    rw (strip_prefix-append token_prefix (token_id ++ ("." ++ secret)), parse_bearer_value)
      (split_once-append token_id secret h)

-- Where neither the product nor the sum leaves the range of `i64`, an expiry is accepted exactly
-- if it lies after `now` and at most `max_expiry_days` days later.
pub validate_expiry_iff :
    (now expires_at max_expiry_days : ℤ)
    → IsI64 (max_expiry_days *ℤ pos 86400)
    → IsI64 (now +ℤ (max_expiry_days *ℤ pos 86400))
    → (validate_expiry now expires_at max_expiry_days ≡ ok tt)
      ↔ ((now <ℤ expires_at) × (expires_at ≤ℤ now +ℤ (max_expiry_days *ℤ pos 86400)))
unfolding validate_expiry
validate_expiry_iff now expires_at days small fits =
    rw (wrap_i64_id _ small, wrap_i64_id _ fits) (ground arith)
