-- ===== src/Models/Slug.antt =====
-- What `validate_slug` of berth-models/src/lib.rs accepts, as a grammar.
use Prim.Native.String.{[], ◌∷◌}
use oxde.Prelude.{ℕ, ◌≤◌, String, Char, code, ◌≡◌, ◌↔◌, ◌⊎◌, true, false, arith, ◌==◌}
use oxde.Prelude.Result.{ok}
use oxde.Prelude.Text.{byte_len, all_chars, last_char}
use oxde.Models.Validate.{validate_slug, is_slug_char}

-- `[a-z0-9]`
abbrev pub IsAlnum : ℕ → Type 0
IsAlnum c = ((b'a' ≤ c) × (c ≤ b'z')) ⊎ ((b'0' ≤ c) × (c ≤ b'9'))

abbrev pub IsAlnumOrDash : ℕ → Type 0
IsAlnumOrDash c = IsAlnum c ⊎ (c ≡ b'-')

-- `[a-z0-9-]*[a-z0-9]`
abbrev pub EndsAlnum : String → Type 0
EndsAlnum [] = ⊥
EndsAlnum (c ∷ []) = IsAlnum (code c)
EndsAlnum (c ∷ d ∷ s) = IsAlnumOrDash (code c) × EndsAlnum (d ∷ s)

-- `[a-z0-9]([a-z0-9-]*[a-z0-9])?`, of at most 63 bytes
abbrev pub IsSlug : String → Type 0
IsSlug [] = ⊥
IsSlug (c ∷ s) = IsAlnum (code c) × EndsAlnum (c ∷ s) × (byte_len (c ∷ s) ≤ 63)

ends_tests :
    (s : String)
    → EndsAlnum s
    → (all_chars is_slug_char s ≡ true) × (last_char (λ c. c == b'-') s ≡ false)
ends_tests [] h = absurd h
ends_tests (c ∷ []) h = ground arith
ends_tests (c ∷ d ∷ s) h = ground (arith, ends_tests (d ∷ s) h.1)

tests_ends :
    (c : Char) (s : String)
    → all_chars is_slug_char (c ∷ s) ≡ true
    → last_char (λ c. c == b'-') (c ∷ s) ≡ false
    → EndsAlnum (c ∷ s)
tests_ends c [] h l = ground arith
tests_ends c (d ∷ s) h l = (ground arith, tests_ends d s (ground arith) l)

-- `validate_slug` accepts exactly the texts of the grammar `[a-z0-9]([a-z0-9-]*[a-z0-9])?` that
-- have at most 63 bytes.
pub validate_slug_iff : (name : String) → (validate_slug name ≡ ok tt) ↔ IsSlug name
unfolding validate_slug
validate_slug_iff [] = (λ h. cc, λ h. absurd h)
validate_slug_iff (c ∷ s) = (accepted, λ h. ground (arith, ends_tests (c ∷ s) h.1))
  where
    accepted : validate_slug (c ∷ s) ≡ ok tt → IsSlug (c ∷ s)
    accepted h = (ground arith, tests_ends c s (ground arith) (ground arith), ground arith)
