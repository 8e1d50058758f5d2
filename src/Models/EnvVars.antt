-- ===== src/Models/EnvVars.antt =====
-- What `validate_env_var_inputs` of berth-models/src/lib.rs accepts, and the key that it names.
use Prim.Native.String.{[], ◌∷◌}
use oxde.Prelude.{
  ℕ, ◌≤◌, String, code, ◌≡◌, ◌≢◌, refl, ◌↔◌, ◌⊎◌, Bool, true, false, ◌||◌, arith, ◌==◌, List, All,
  any, str_eq, eq_iff,
}
use oxde.Prelude.Result.{ok}
use oxde.Prelude.Text.{all_chars, is_ascii_alphanumeric}
use oxde.Models.{EnvVarInput}
use oxde.Models.Validate.{validate_env_var_inputs, validate_keys, valid_env_var_key}

-- `[A-Za-z_]` and `[A-Za-z0-9_]`
abbrev pub IsKeyStart : ℕ → Type 0
IsKeyStart c = ((b'a' ≤ c) × (c ≤ b'z')) ⊎ ((b'A' ≤ c) × (c ≤ b'Z')) ⊎ (c ≡ b'_')

abbrev pub IsKeyPart : ℕ → Type 0
IsKeyPart c = IsKeyStart c ⊎ ((b'0' ≤ c) × (c ≤ b'9'))

abbrev pub KeyParts : String → Type 0
KeyParts [] = Unit
KeyParts (c ∷ s) = IsKeyPart (code c) × KeyParts s

-- `[A-Za-z_][A-Za-z0-9_]*`
abbrev pub IsKey : String → Type 0
IsKey [] = ⊥
IsKey (c ∷ s) = IsKeyStart (code c) × KeyParts s

abbrev is_key_part : ℕ → Bool
is_key_part c = is_ascii_alphanumeric c || c == b'_'

KeyParts-sound : (s : String) → all_chars is_key_part s ≡ true → KeyParts s
KeyParts-sound [] h = tt
KeyParts-sound (c ∷ s) h = (ground arith, KeyParts-sound s (ground arith))

KeyParts-complete : (s : String) → KeyParts s → all_chars is_key_part s ≡ true
KeyParts-complete [] h = refl
KeyParts-complete (c ∷ s) h = ground (arith, KeyParts-complete s h.1)

valid_env_var_key_sound : (s : String) → valid_env_var_key s ≡ true → IsKey s
unfolding valid_env_var_key
valid_env_var_key_sound [] h = cc
valid_env_var_key_sound (c ∷ s) h = (ground arith, KeyParts-sound s (ground arith))

valid_env_var_key_complete : (s : String) → IsKey s → valid_env_var_key s ≡ true
unfolding valid_env_var_key
valid_env_var_key_complete [] h = absurd h
valid_env_var_key_complete (c ∷ s) h = ground (arith, KeyParts-complete s h.1)

-- No two entries have one key.
abbrev pub DistinctKeys : List EnvVarInput → Type 0
DistinctKeys List.[] = Unit
DistinctKeys (List.◌∷◌ x xs) = All (λ y. x.key ≢ y.key) xs × DistinctKeys xs

-- No entry has a key of `seen`.
abbrev Apart : List String → List EnvVarInput → Type 0
Apart seen = All (λ y. All (λ k. k ≢ y.key) seen)

unseen_sound :
    (k : String) (seen : List String) → any (str_eq k) seen ≡ false → All (λ j. j ≢ k) seen
unseen_sound k List.[] h = tt
unseen_sound k (List.◌∷◌ j seen) h =
    (λ e. ground (arith, eq_iff k j), unseen_sound k seen (ground arith))

unseen_complete :
    (k : String) (seen : List String) → All (λ j. j ≢ k) seen → any (str_eq k) seen ≡ false
unseen_complete k List.[] h = refl
unseen_complete k (List.◌∷◌ j seen) h = ground (arith, eq_iff k j, unseen_complete k seen h.1)

Apart-cons :
    (k : String) (seen : List String) (xs : List EnvVarInput)
    → Apart (List.◌∷◌ k seen) xs ↔ (All (λ y. k ≢ y.key) xs × Apart seen xs)
Apart-cons k seen List.[] = (λ _. (tt, tt), λ _. tt)
Apart-cons k seen (List.◌∷◌ x xs) =
    let ih = Apart-cons k seen xs in
    (
      λ h. ((h.0.0, (ih.0 h.1).0), (h.0.1, (ih.0 h.1).1)),
      λ h. ((h.0.0, h.1.0), ih.1 (h.0.1, h.1.1)),
    )

validate_keys_sound :
    (seen : List String) (xs : List EnvVarInput)
    → validate_keys seen xs ≡ ok tt
    → All (λ x. IsKey x.key) xs × Apart seen xs × DistinctKeys xs
unfolding validate_keys
validate_keys_sound seen List.[] h = (tt, tt, tt)
validate_keys_sound seen (List.◌∷◌ x xs) h =
    let fresh : any (str_eq x.key) seen ≡ false = ground arith in
    let (keys, apart, distinct) = validate_keys_sound (List.◌∷◌ x.key seen) xs (ground arith) in
    let (later, others) = (Apart-cons x.key seen xs).0 apart in
    (
      (valid_env_var_key_sound x.key (ground arith), keys),
      (unseen_sound x.key seen fresh, others),
      (later, distinct),
    )

validate_keys_complete :
    (seen : List String) (xs : List EnvVarInput)
    → All (λ x. IsKey x.key) xs
    → Apart seen xs
    → DistinctKeys xs
    → validate_keys seen xs ≡ ok tt
unfolding validate_keys
validate_keys_complete seen List.[] keys apart distinct = refl
validate_keys_complete seen (List.◌∷◌ x xs) keys apart distinct =
    rw (valid_env_var_key_complete x.key keys.0, unseen_complete x.key seen apart.0)
      (validate_keys_complete (List.◌∷◌ x.key seen) xs keys.1
        ((Apart-cons x.key seen xs).1 (distinct.0, apart.1)) distinct.1)

Apart-nil : (xs : List EnvVarInput) → Apart List.[] xs
Apart-nil List.[] = tt
Apart-nil (List.◌∷◌ x xs) = (tt, Apart-nil xs)

-- `validate_env_var_inputs` accepts exactly the lists in which every key has the form
-- `[A-Za-z_][A-Za-z0-9_]*` and no two entries have one key.
pub validate_env_var_inputs_iff :
    (xs : List EnvVarInput)
    → (validate_env_var_inputs xs ≡ ok tt) ↔ (All (λ x. IsKey x.key) xs × DistinctKeys xs)
unfolding validate_env_var_inputs
validate_env_var_inputs_iff xs = (
  λ h. let (keys, _, distinct) = validate_keys_sound List.[] xs h in (keys, distinct),
  λ h. validate_keys_complete List.[] xs h.0 (Apart-nil xs) h.1,
)
