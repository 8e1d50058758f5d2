-- ===== src/Prelude/Find.antt =====
-- Finding rows in a table that grows at its end and is updated in place.
use mathlib.Core.Path.{◌≡◌, refl}
use mathlib.Core.Bool.{Bool, true, false}
use mathlib.Core.Logic.{inl, inr}
use mathlib.Core.Option.{Option, none, some}
use mathlib.Core.List.{List, [], ◌∷◌, ◌++◌}
use native.Mathlib.Omega.{arith}
use oxde.Prelude.Tests.{if◌then◌else◌, Bool-cases}
use oxde.Prelude.Lists.{any, find, filter, update_where}

pub some_inj {ℓ} : {A : Type ℓ} {a b : A} → some a ≡ some b → a ≡ b
some_inj e = cc

abbrev pub map_option {ℓ κ} : {A : Type ℓ} {B : Type κ} → (A → B) → Option A → Option B
map_option f none = none
map_option f (some a) = some (f a)

module _ {A : Type 0} (p : A → Bool) where
  pub find_sound : (xs : List A) {x : A} → find p xs ≡ some x → p x ≡ true
  find_sound [] h = cc
  find_sound (x ∷ xs) {x = y} h = elim (Bool-cases (p x)) [
    | inl e ↦ let same : x ≡ y = ground arith in rw (← same) e
    | inr e ↦ find_sound xs (rw e at h)
  ]

  pub find-append_absent :
      (xs : List A) (x : A) → any p xs ≡ false → p x ≡ true → find p (xs ++ x ∷ []) ≡ some x
  find-append_absent [] x absent here = rw here refl
  find-append_absent (y ∷ xs) x absent here =
      let other : p y ≡ false = ground arith in
      rw other (find-append_absent xs x (ground arith) here)

  pub find-append_other : (xs : List A) (x : A) → p x ≡ false → find p (xs ++ x ∷ []) ≡ find p xs
  find-append_other [] x other = rw other refl
  find-append_other (y ∷ xs) x other = rw (find-append_other xs x other) refl

  pub find-none : (xs : List A) → find p xs ≡ none → any p xs ≡ false
  find-none [] h = refl
  find-none (x ∷ xs) h = elim (Bool-cases (p x)) [
    | inl e ↦ ground arith
    | inr e ↦ rw e (find-none xs (rw e at h))
  ]

  same_if :
      (q : A → Bool) (f : A → A) (x : A)
      → ((y : A) → p (f y) ≡ p y)
      → p (if q x then f x else x) ≡ p x
  same_if q f x same = elim (Bool-cases (q x)) [ inl e ↦ rw e (same x) | inr e ↦ rw e refl ]

  -- An update that leaves the test alone updates what is found.
  pub find-update_where :
      (q : A → Bool) (f : A → A) (xs : List A)
      → ((x : A) → p (f x) ≡ p x)
      → find p (update_where q f xs) ≡ map_option (λ x. if q x then f x else x) (find p xs)
  find-update_where q f [] same = refl
  find-update_where q f (x ∷ xs) same = elim (Bool-cases (p x)) [
    | inl e ↦ rw (same_if q f x same, e) refl
    | inr e ↦ rw (same_if q f x same, e) (find-update_where q f xs same)
  ]

  pub find-filter_kept :
      (q : A → Bool) (xs : List A)
      → ((x : A) → p x ≡ true → q x ≡ true)
      → find p (filter q xs) ≡ find p xs
  find-filter_kept q [] kept = refl
  find-filter_kept q (x ∷ xs) kept = elim (Bool-cases (p x)) [
    | inl e ↦ let k = kept x e in rw (k, e) refl
    | inr e ↦ elim (Bool-cases (q x)) [
      | inl k ↦ rw (k, e) (find-filter_kept q xs kept)
      | inr k ↦ rw (k, e) (find-filter_kept q xs kept)
    ]
  ]

  pub find-filter_gone :
      (q : A → Bool) (xs : List A)
      → ((x : A) → p x ≡ true → q x ≡ false)
      → find p (filter q xs) ≡ none
  find-filter_gone q [] gone = refl
  find-filter_gone q (x ∷ xs) gone = elim (Bool-cases (p x)) [
    | inl e ↦ let k = gone x e in rw k (find-filter_gone q xs gone)
    | inr e ↦ elim (Bool-cases (q x)) [
      | inl k ↦ rw (k, e) (find-filter_gone q xs gone)
      | inr k ↦ rw k (find-filter_gone q xs gone)
    ]
  ]

  pub find-append_found :
      (xs : List A) (x : A) {y : A} → find p xs ≡ some y → find p (xs ++ x ∷ []) ≡ some y
  find-append_found [] x h = cc
  find-append_found (z ∷ xs) x h = elim (Bool-cases (p z)) [
    | inl e ↦ rw e (rw e at h)
    | inr e ↦ rw e (find-append_found xs x (rw e at h))
  ]
