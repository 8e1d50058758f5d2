-- ===== src/Routing/Labels.antt =====
-- Subdomain labels and apps: `classify_host` against the texts that it takes apart.
use Prim.Native.String.{[], ◌∷◌, ◌++◌, count}
use text.Mathlib.TextLemmas.{nil-append, cons-append, length-append, length-cons, cons-ne-nil}
use oxde.Prelude.{
  ℕ, String, Char, ◌≡◌, ◌≢◌, refl, ap, ◌∙◌, inl, inr, Bool, true, false, Option, none, some, arith,
  str_eq, eq_iff, Bool-cases, Option-cases,
}
use oxde.Prelude.Text.{split_once, all_chars}
use oxde.ApiTokens.{Without}
use oxde.Models.Slug.{IsSlug, EndsAlnum}
use oxde.Routing.{
  Lowercase, app, is_lower_ascii, strip_suffix, without_port, match_label, classify_host,
}

strip_suffix_sound :
    (suffix s : String) {p : String} → strip_suffix suffix s ≡ some p → s ≡ p ++ suffix
strip_suffix_sound suffix [] {p} h =
    let whole : str_eq [] suffix ≡ true = ground arith in
    let empty : p ≡ "" = ground arith in rw (empty, nil-append) ((eq_iff "" suffix).0 whole)
strip_suffix_sound suffix (c ∷ s) {p} h = elim (Bool-cases (str_eq (c ∷ s) suffix)) [
  | inl whole ↦
      let empty : p ≡ "" = ground arith in rw (empty, nil-append) ((eq_iff (c ∷ s) suffix).0 whole)
  | inr more ↦ elim (Option-cases (strip_suffix suffix s)) [
    | inl missing ↦ ground arith
    | inr (q, found) ↦
        let longer : p ≡ c ∷ q = ground arith in
        rw (longer, cons-append) (ap (◌∷◌ c) (strip_suffix_sound suffix s found))
  ]
]

str_ne : (s t : String) → s ≢ t → str_eq s t ≡ false
str_ne s t h = ground (arith, eq_iff s t)

append_ne : (c : Char) (s t : String) → c ∷ (s ++ t) ≢ t
append_ne c s t e = omega (arith, ap count e, length-append s t, length-cons c (s ++ t))

strip_suffix-append : (p suffix : String) → strip_suffix suffix (p ++ suffix) ≡ some p
strip_suffix-append [] [] = refl
strip_suffix-append [] (c ∷ s) = rw (nil-append, (eq_iff (c ∷ s) (c ∷ s)).1 refl) refl
strip_suffix-append (c ∷ p) suffix =
    rw
      (
        cons-append,
        str_ne (c ∷ (p ++ suffix)) suffix (append_ne c p suffix),
        strip_suffix-append p suffix,
      )
      refl

all_chars-append :
    (f : ℕ → Bool) (s t : String)
    → all_chars f s ≡ true
    → all_chars f t ≡ true
    → all_chars f (s ++ t) ≡ true
all_chars-append f [] t h k = rw nil-append k
all_chars-append f (c ∷ s) t h k = rw cons-append (ground (arith, all_chars-append f s t))

Without-append : (c : ℕ) (s t : String) → Without c s → Without c t → Without c (s ++ t)
Without-append c [] t h k = rw nil-append k
Without-append c (d ∷ s) t h k = rw cons-append (h.0, Without-append c s t h.1 k)

split_once_absent : (c : ℕ) (s : String) → Without c s → split_once c s ≡ none
split_once_absent c [] h = refl
split_once_absent c (d ∷ s) h = ground (arith, split_once_absent c s h.1)

without_port_id : (s : String) → Without b':' s → without_port s ≡ s
without_port_id s h = rw (split_once_absent b':' s h, without_port) refl

slug_plain : (s : String) → EndsAlnum s → (all_chars is_lower_ascii s ≡ true) × Without b':' s
slug_plain [] h = absurd h
slug_plain (c ∷ []) h = ground arith
slug_plain (c ∷ d ∷ s) h = ground (arith, slug_plain (d ∷ s) h.1)

match_label_sound :
    (o : Option String) (label : String)
    → match_label o ≡ app label
    → (o ≡ some label) × (label ≢ "")
unfolding match_label
match_label_sound none label h = cc
match_label_sound (some []) label h = cc
match_label_sound (some (c ∷ p)) label h =
    let same : c ∷ p ≡ label = ground arith in (ap some same, λ e. cons-ne-nil c p (same ∙ e))

classify_host_app :
    (l : Lowercase) (host base_domain label : String)
    → classify_host l host base_domain ≡ app label
    → match_label
        (strip_suffix ("." ++ l.to_lowercase base_domain) (l.to_lowercase (without_port host)))
      ≡ app label
unfolding classify_host
classify_host_app l host base_domain label h =
    elim (Bool-cases (str_eq (l.to_lowercase (without_port host)) (l.to_lowercase base_domain))) [
      | inl e ↦ ground arith
      | inr e ↦ ground arith
    ]

-- A host that is classified as the app `label` is, in lower case and without its port, that label
-- (which is not empty) before a dot and the lower case of the base domain.
pub classify_host_sound :
    (l : Lowercase) (host base_domain : String) {label : String}
    → classify_host l host base_domain ≡ app label
    → (label ≢ "")
      × (l.to_lowercase (without_port host) ≡ label ++ ("." ++ l.to_lowercase base_domain))
unfolding classify_host
classify_host_sound l host base_domain {label} h =
    let (found, named) = match_label_sound _ label (classify_host_app l host base_domain label h) in
    (named, strip_suffix_sound _ _ found)

classify_lower :
    (l : Lowercase) (host base_domain : String) (c : Char) (s : String)
    → without_port host ≡ host
    → l.to_lowercase host ≡ host
    → l.to_lowercase base_domain ≡ base_domain
    → str_eq host base_domain ≡ false
    → strip_suffix ("." ++ base_domain) host ≡ some (c ∷ s)
    → classify_host l host base_domain ≡ app (c ∷ s)
unfolding classify_host match_label
classify_lower l host base_domain c s bare low low_base other found =
    rw (classify_host, bare, low, low_base, other, found) refl

dot-Without : (s : String) → Without b':' s → Without b':' ("." ++ s)
dot-Without s h = Without-append b':' "." s (λ e. absurd (omega arith), tt) h

dot_lower :
    (s : String) → all_chars is_lower_ascii s ≡ true → all_chars is_lower_ascii ("." ++ s) ≡ true
dot_lower s h = all_chars-append is_lower_ascii "." s refl h

longer_ne : (s t : String) → s ++ ("." ++ t) ≢ t
longer_ne s t e = omega (arith, ap count e, length-append s ("." ++ t), length-append "." t)

-- Where the base domain is lower-case ASCII with no port, the host of an app, which is its slug
-- before a dot and that domain, is classified as that app.
pub classify_host_slug :
    (l : Lowercase) (name base_domain : String)
    → IsSlug name
    → all_chars is_lower_ascii base_domain ≡ true
    → Without b':' base_domain
    → classify_host l (name ++ ("." ++ base_domain)) base_domain ≡ app name
unfolding classify_host
classify_host_slug l [] base_domain slug plain no_port = absurd slug
classify_host_slug l (c ∷ s) base_domain slug plain no_port =
    let name = c ∷ s in
    let (lower, portless) = slug_plain name slug.1 in
    classify_lower l (name ++ ("." ++ base_domain)) base_domain c s
      (without_port_id _ (Without-append b':' name _ portless (dot-Without base_domain no_port)))
      (l.to_lowercase_id _
        (all_chars-append is_lower_ascii name _ lower (dot_lower base_domain plain)))
      (l.to_lowercase_id _ plain) (str_ne _ _ (longer_ne name base_domain))
      (strip_suffix-append name ("." ++ base_domain))
