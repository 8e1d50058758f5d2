-- ===== src/Prelude/Text.antt =====
-- Rust's `str` methods that the code calls, over the native text: a text is walked by code points.
use Prim.Native.String.{[], ◌∷◌}
use oxde.Prelude.Tests.{ltb, leb, ◌==◌, if◌then◌else◌}
use Prim.Native.Nat.{ℕ, ◌+◌}
use Prim.Native.Char.{Char, code}
use Prim.Native.String.{String}
use mathlib.Core.Bool.{Bool, true, false, ◌&&◌, ◌||◌}
use mathlib.Core.List.{List}
use mathlib.Core.Option.{Option, none, some}

-- the bytes that a code point takes in UTF-8
abbrev pub utf8_width : ℕ → ℕ
utf8_width c = if ltb c 0x80 then 1 else if ltb c 0x800 then 2 else if ltb c 0x10000 then 3 else 4

-- `str::len`
abbrev pub byte_len : String → ℕ
byte_len [] = 0
byte_len (c ∷ s) = utf8_width (code c) + byte_len s

abbrev pub is_empty : String → Bool
is_empty [] = true
is_empty (c ∷ s) = false

-- `s.chars().all(p)`
abbrev pub all_chars : (ℕ → Bool) → String → Bool
all_chars p [] = true
all_chars p (c ∷ s) = p (code c) && all_chars p s

-- `s.chars().next().is_some_and(p)`, and `s.starts_with(p)` for a test on characters
abbrev pub first_char : (ℕ → Bool) → String → Bool
first_char p [] = false
first_char p (c ∷ s) = p (code c)

-- `s.ends_with(p)` for a test on characters
abbrev pub last_char : (ℕ → Bool) → String → Bool
last_char p [] = false
last_char p (c ∷ []) = p (code c)
last_char p (c ∷ d ∷ s) = last_char p (d ∷ s)

abbrev pub strip_prefix : String → String → Option String
strip_prefix [] s = some s
strip_prefix (c ∷ p) [] = none
strip_prefix (c ∷ p) (d ∷ s) = if code c == code d then strip_prefix p s else none

abbrev pub is_some {ℓ} : {A : Type ℓ} → Option A → Bool
is_some none = false
is_some (some a) = true

abbrev pub starts_with : String → String → Bool
starts_with p s = is_some (strip_prefix p s)

-- what precedes and follows the first `sep`
abbrev pub consed : Char → Option (String × String) → Option (String × String)
consed c none = none
consed c (some (a, b)) = some (c ∷ a, b)

abbrev pub split_once : ℕ → String → Option (String × String)
split_once sep [] = none
split_once sep (c ∷ s) = if code c == sep then some ("", s) else consed c (split_once sep s)

abbrev pub onto_first : Char → List String → List String
onto_first c List.[] = List.◌∷◌ (c ∷ []) List.[]
onto_first c (List.◌∷◌ p ps) = List.◌∷◌ (c ∷ p) ps

-- `str::split(sep)`
abbrev pub split : ℕ → String → List String
split sep [] = List.◌∷◌ "" List.[]
split sep (c ∷ s) =
    let rest = split sep s in if code c == sep then List.◌∷◌ "" rest else onto_first c rest

-- `char::is_whitespace`: the code points with the property White_Space
abbrev pub is_whitespace : ℕ → Bool
is_whitespace c =
    (leb 0x9 c && leb c 0xd)
    || (c == 0x20)
    || (c == 0x85)
    || (c == 0xa0)
    || (c == 0x1680)
    || (leb 0x2000 c && leb c 0x200a)
    || (c == 0x2028)
    || (c == 0x2029)
    || (c == 0x202f)
    || (c == 0x205f)
    || (c == 0x3000)

abbrev pub trim_start : String → String
trim_start [] = []
trim_start (c ∷ s) = if is_whitespace (code c) then trim_start s else c ∷ s

abbrev pub unless_blank : Char → String → String
unless_blank c [] = if is_whitespace (code c) then [] else c ∷ []
unless_blank c (d ∷ s) = c ∷ d ∷ s

abbrev pub trim_end : String → String
trim_end [] = []
trim_end (c ∷ s) = unless_blank c (trim_end s)

abbrev pub trim : String → String
trim s = trim_end (trim_start s)

abbrev pub is_ascii_lowercase : ℕ → Bool
is_ascii_lowercase c = leb b'a' c && leb c b'z'

abbrev pub is_ascii_uppercase : ℕ → Bool
is_ascii_uppercase c = leb b'A' c && leb c b'Z'

abbrev pub is_ascii_digit : ℕ → Bool
is_ascii_digit c = leb b'0' c && leb c b'9'

abbrev pub is_ascii_alphabetic : ℕ → Bool
is_ascii_alphabetic c = is_ascii_lowercase c || is_ascii_uppercase c

abbrev pub is_ascii_alphanumeric : ℕ → Bool
is_ascii_alphanumeric c = is_ascii_alphabetic c || is_ascii_digit c
