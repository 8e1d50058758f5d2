-- ===== src/Routing.antt =====
-- berth-hub/src/routes/host_routing.rs: which app a request's host names. `str::to_lowercase` is
-- the parameter `Lowercase`, with what it does to text that has no letter to change.
pub mod Labels
use Prim.Native.String.{[], ◌∷◌, ◌++◌}
use oxde.Prelude.{
  ℕ, ◌<◌, ◌≤◌, String, code, ◌≡◌, ◌≢◌, refl, ◌⊎◌, Bool, ◌&&◌, not, true, Option, none, some, arith,
  ◌==◌, ltb, if◌then◌else◌, str_eq,
}
use oxde.Prelude.Text.{split_once, consed, is_empty, is_ascii_uppercase, all_chars}

abbrev pub is_lower_ascii : ℕ → Bool
is_lower_ascii c = ltb c 0x80 && not (is_ascii_uppercase c)

pub record Lowercase : Type 0 where
  pub to_lowercase : String → String
  pub to_lowercase_id : (s : String) → all_chars is_lower_ascii s ≡ true → to_lowercase s ≡ s

pub data HostMatch : Type 0 where
  control_plane : HostMatch
  app : String → HostMatch
  unrecognized : HostMatch

-- `str::strip_suffix`
abbrev pub strip_suffix : String → String → Option String
strip_suffix suffix [] = if str_eq [] suffix then some "" else none
strip_suffix suffix (c ∷ s) =
    let shorter = strip_suffix suffix s in
    if str_eq (c ∷ s) suffix then some "" else elim shorter [ none ↦ none | some p ↦ some (c ∷ p) ]

abbrev pub without_port : String → String
without_port host = elim (split_once b':' host) [ none ↦ host | some (h, _) ↦ h ]

unfoldable pub match_label : Option String → HostMatch
match_label none = unrecognized
match_label (some label) = if not (is_empty label) then app label else unrecognized

module _ (l : Lowercase) where
  open l use {to_lowercase}

  unfoldable pub classify_host : (host base_domain : String) → HostMatch
  unfolding match_label
  classify_host host base_domain =
      let h = to_lowercase (without_port host) in
      let base = to_lowercase base_domain in
      if str_eq h base then control_plane else match_label (strip_suffix ("." ++ base) h)
