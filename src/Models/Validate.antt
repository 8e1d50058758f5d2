-- ===== src/Models/Validate.antt =====
-- The validators of berth-models/src/lib.rs.
use oxde.Prelude.{
  ℕ, String, Bool, not, ◌&&◌, ◌||◌, List, [], ◌∷◌, any, ◌==◌, leb, if◌then◌else◌, str_eq,
}
use oxde.Prelude.Result.{Result, ok, err}
use oxde.Prelude.Text.{
  byte_len, is_empty, all_chars, first_char, last_char, starts_with, trim, is_ascii_lowercase,
  is_ascii_digit, is_ascii_alphabetic, is_ascii_alphanumeric,
}
use oxde.Models.{ModelError, EnvVarInput, RunConfig, BuildConfig}

abbrev pub ModelResult : Type 0
ModelResult = Result (Unit {0}) ModelError

abbrev pub is_slug_char : ℕ → Bool
is_slug_char c = is_ascii_lowercase c || is_ascii_digit c || c == b'-'

unfoldable pub validate_slug : String → ModelResult
validate_slug name =
    let valid =
      not (is_empty name)
      && leb (byte_len name) 63
      && not (first_char (λ c. c == b'-') name)
      && not (last_char (λ c. c == b'-') name)
      && all_chars is_slug_char name in
    if valid then ok tt else err (ModelError.invalid_name name)

unfoldable pub validate_repo_url : String → ModelResult
validate_repo_url repo_url =
    if any (λ prefix. starts_with prefix repo_url)
      ("https://" ∷ "http://" ∷ "ssh://" ∷ "git://" ∷ [])
    then ok tt
    else err (ModelError.invalid_repo_url repo_url)

unfoldable pub validate_run_config : RunConfig → ModelResult
validate_run_config run =
    if run.container_port == 0
    then err (ModelError.invalid_run_config "container port must be 1-65535")
    else if is_empty (trim run.start_command)
    then err (ModelError.invalid_run_config "start command is required in run mode")
    else ok tt

unfoldable pub valid_env_var_key : String → Bool
valid_env_var_key key =
    not (is_empty key)
    && first_char (λ c. is_ascii_alphabetic c || c == b'_') key
    && all_chars (λ c. is_ascii_alphanumeric c || c == b'_') key

-- The loop of `validate_env_var_inputs`, with the set of keys it has seen. `HashSet::insert`
-- answers false for a key that is there.
unfoldable pub validate_keys : List String → List EnvVarInput → ModelResult
unfolding valid_env_var_key
validate_keys seen [] = ok tt
validate_keys seen (env_var ∷ env_vars) =
    let rest = validate_keys (env_var.key ∷ seen) env_vars in
    if not (valid_env_var_key env_var.key)
    then err (ModelError.invalid_env_var env_var.key)
    else if any (str_eq env_var.key) seen
    then err (ModelError.invalid_env_var env_var.key)
    else rest

unfoldable pub validate_env_var_inputs : List EnvVarInput → ModelResult
unfolding validate_keys
validate_env_var_inputs = validate_keys []

unfoldable pub validate_build_config : BuildConfig → ModelResult
validate_build_config build =
    if is_empty (trim build.command)
    then err (ModelError.invalid_build_config "build command is required")
    else if is_empty (trim build.output_dir)
    then err (ModelError.invalid_build_config "output dir is required")
    else ok tt
