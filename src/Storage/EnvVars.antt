-- ===== src/Storage/EnvVars.antt =====
-- How berth-hub/src/storage.rs seals the environment variables of an app and opens them again.
-- The nonce of a variable's encryption is drawn at random: it is an argument, by key.
pub mod Laws
use oxde.Prelude.{
  ℕ, String, ◌≡◌, refl, sym, ap, ◌∙◌, inl, inr, Bool, true, false, not, ◌&&◌, Option, none, some,
  List, [], ◌∷◌, ◌==◌, str_eq, find, arith, if◌then◌else◌, Bool-cases, All,
}
use oxde.Prelude.Text.{byte_len}
use oxde.Prelude.Result.{
  Result, ok, err, ◌>>=◌, ◌>>◌, ok_or, map_err, map_ok, ensure, collect, >>=-eq-ok, ok_inj,
}
use oxde.Error.{AppError, AppResult}
use oxde.Models.{EnvVar, EnvVarValue, EnvVarInput, EnvVarInputValue}
use oxde.Secrets.{Crypto, Bytes, encrypt, decrypt, decrypt-encrypt}

abbrev pub is_secret : EnvVarValue → Bool
is_secret (EnvVarValue.plain _) = false
is_secret (EnvVarValue.secret _) = true

abbrev pub stored_secret : List EnvVar → (key : String) → Option EnvVar
stored_secret existing key = find (λ v. str_eq v.key key && is_secret v.value) existing

module _ (c : Crypto) where
  unfoldable pub resolve_value :
      (nonce : Bytes) → List EnvVar → (key : String) → EnvVarInputValue → AppResult EnvVarValue
  resolve_value nonce existing key (EnvVarInputValue.plain value) = ok (EnvVarValue.plain value)
  resolve_value nonce existing key (EnvVarInputValue.secret (some value)) =
      if byte_len value == 0
      then err (AppError.invalid_env_var key)
      else map_ok EnvVarValue.secret (encrypt c nonce value)
  resolve_value nonce existing key (EnvVarInputValue.secret none) = do
    env_var ← ok_or (stored_secret existing key) (AppError.invalid_env_var key)
    ok env_var.value

  unfoldable pub resolve_input :
      (nonce : String → Bytes) → List EnvVar → EnvVarInput → AppResult EnvVar
  unfolding resolve_value
  resolve_input nonce existing input = do
    value ← resolve_value (nonce input.key) existing input.key input.value
    ok (record { key = input.key; value = value })

  unfoldable pub resolve_env_var_inputs :
      (nonce : String → Bytes)
      → List EnvVarInput
      → (existing : List EnvVar) → AppResult (List EnvVar)
  resolve_env_var_inputs nonce inputs existing = collect (resolve_input nonce existing) inputs

  unfoldable pub decrypt_value : EnvVarValue → AppResult String
  decrypt_value (EnvVarValue.plain value) = ok value
  decrypt_value (EnvVarValue.secret ciphertext) = decrypt c ciphertext

  unfoldable pub decrypt_env_var : EnvVar → AppResult EnvVar
  unfolding decrypt_value
  decrypt_env_var env_var = do
    value ← decrypt_value env_var.value
    ok (record { key = env_var.key; value = EnvVarValue.plain value })

  unfoldable pub decrypt_env_vars : List EnvVar → AppResult (List EnvVar)
  decrypt_env_vars env_vars = collect decrypt_env_var env_vars
