-- ===== src/Storage/EnvVars/Laws.antt =====
-- The environment variables that berth-hub/src/storage.rs stores, sealed and opened.
use oxde.Prelude.{
  String, ◌≡◌, refl, inl, inr, Bool, true, false, ◌&&◌, none, some, List, [], ◌∷◌, map, length,
  ◌==◌, str_eq, arith, Bool-cases,
}
use oxde.Prelude.Find.{find_sound}
use oxde.Prelude.Text.{byte_len}
use oxde.Prelude.Result.{ok, ◌>>=◌, ok_or, collect, >>=-eq-ok, ok_or-eq-ok, ok_inj, map_ok-eq-ok}
use oxde.Error.{AppError, AppResult}
use oxde.Models.{EnvVar, EnvVarValue, EnvVarInput, EnvVarInputValue}
use oxde.Secrets.{Crypto, Bytes, encrypt, decrypt-encrypt}
use oxde.Storage.EnvVars.{
  is_secret, stored_secret, resolve_value, resolve_input, resolve_env_var_inputs, decrypt_value,
  decrypt_env_var, decrypt_env_vars,
}

abbrev pub asks_secret : EnvVarInputValue → Bool
asks_secret (EnvVarInputValue.plain _) = false
asks_secret (EnvVarInputValue.secret _) = true

module _ (c : Crypto) where
  -- The text that an input asks for: the one it gives, or that of the secret which is kept.
  abbrev pub asked_text : List EnvVar → (key : String) → EnvVarInputValue → AppResult String
  asked_text existing key (EnvVarInputValue.plain value) = ok value
  asked_text existing key (EnvVarInputValue.secret (some value)) = ok value
  asked_text existing key (EnvVarInputValue.secret none) = do
    kept ← ok_or (stored_secret existing key) (AppError.invalid_env_var key)
    decrypt_value c kept.value

  abbrev pub asked : List EnvVar → EnvVarInput → AppResult EnvVar
  asked existing input = do
    text ← asked_text existing input.key input.value
    ok (record { key = input.key; value = EnvVarValue.plain text })

  value_round_trip :
      (nonce : Bytes) (existing : List EnvVar) (key : String) (input : EnvVarInputValue)
      (value : EnvVarValue)
      → length nonce ≡ 12
      → resolve_value c nonce existing key input ≡ ok value
      → (decrypt_value c value ≡ asked_text existing key input)
        × (is_secret value ≡ asks_secret input)
  unfolding resolve_value decrypt_value
  value_round_trip nonce existing key (EnvVarInputValue.plain text) value size e =
      let same = ok_inj e in rw (← same) (refl, refl)
  value_round_trip nonce existing key (EnvVarInputValue.secret (some text)) value size e =
      elim (Bool-cases (byte_len text == 0)) [
        | inl empty ↦ absurd (let refused = rw empty at e in cc)
        | inr present ↦
            let (sealed, done, wrapped) =
              map_ok-eq-ok EnvVarValue.secret (encrypt c nonce text) (rw present at e) in
            rw (← wrapped) (decrypt-encrypt c nonce text sealed size done, refl)
      ]
  value_round_trip nonce existing key (EnvVarInputValue.secret none) value size e =
      let (kept, found, e1) =
        >>=-eq-ok (ok_or (stored_secret existing key) (AppError.invalid_env_var key)) _ e in
      let same = ok_inj e1 in
      let test =
        find_sound (λ v. str_eq v.key key && is_secret v.value) existing (ok_or-eq-ok _ _ found) in
      rw (ok_or-eq-ok _ _ found, ← same) (refl, ground (arith, test))

  input_round_trip :
      (nonce : String → Bytes) (existing : List EnvVar) (input : EnvVarInput) (stored : EnvVar)
      → ((key : String) → length (nonce key) ≡ 12)
      → resolve_input c nonce existing input ≡ ok stored
      → (decrypt_env_var c stored ≡ asked existing input)
        × (is_secret stored.value ≡ asks_secret input.value)
  unfolding resolve_input decrypt_env_var
  input_round_trip nonce existing input stored size e =
      let (value, resolved, e1) =
        >>=-eq-ok (resolve_value c (nonce input.key) existing input.key input.value) _ e in
      let (opened, kind) =
        value_round_trip (nonce input.key) existing input.key input.value value (size input.key)
          resolved in
      let same = ok_inj e1 in rw (← same) (rw opened refl, kind)

  -- Inputs that are resolved, with nonces of twelve bytes, decrypt to what they ask for: the texts
  -- that they give, and the stored secrets that they keep. A value is stored as a secret exactly if
  -- its input is one.
  pub resolve-decrypt_round_trip :
      (nonce : String → Bytes) (inputs : List EnvVarInput) (existing stored : List EnvVar)
      → ((key : String) → length (nonce key) ≡ 12)
      → resolve_env_var_inputs c nonce inputs existing ≡ ok stored
      → (decrypt_env_vars c stored ≡ collect (asked existing) inputs)
        × (map (λ v. is_secret v.value) stored ≡ map (λ i. asks_secret i.value) inputs)
  unfolding resolve_env_var_inputs decrypt_env_vars
  resolve-decrypt_round_trip nonce [] existing stored size e =
      let same = ok_inj e in rw (← same) (refl, refl)
  resolve-decrypt_round_trip nonce (input ∷ inputs) existing stored size e =
      let (first, r, e1) = >>=-eq-ok (resolve_input c nonce existing input) _ e in
      let (others, rs, e2) = >>=-eq-ok (collect (resolve_input c nonce existing) inputs) _ e1 in
      let same = ok_inj e2 in
      let (opened, kind) = input_round_trip nonce existing input first size r in
      let (opened_others, kinds) =
        resolve-decrypt_round_trip nonce inputs existing others size rs in
      rw (← same) (rw (opened, opened_others) refl, rw (kind, kinds) refl)
