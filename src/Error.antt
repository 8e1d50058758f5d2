-- ===== src/Error.antt =====
-- berth-hub/src/error.rs: the hub's error type, its messages and the HTTP response it becomes. The
-- errors of other crates (`Db`, `Zip`, `Multipart`, `Io`, `Json`, `Timestamp`) carry their message.
pub mod Response
use Prim.Native.String.{◌++◌}
use oxde.Prelude.{ℕ, String}
use oxde.Prelude.Int.{ℤ}
use oxde.Prelude.Decimal.{decimal_ℤ}
use oxde.Prelude.Result.{Result}

pub data AppError : Type 0 where
  app_not_found deployment_not_found app_already_exists : String → AppError
  delete_active_deployment : AppError
  invalid_name invalid_repo_url not_git_sourced deployment_in_progress : String → AppError
  invalid_publish_dir invalid_run_config invalid_build_config invalid_env_var : String → AppError
  invalid_username invalid_role invalid_password user_not_found : String → AppError
  user_already_exists : String → AppError
  invalid_token_expiry : ℤ → AppError
  token_not_found host_not_found : AppError
  host_already_exists invalid_host_ip : String → AppError
  invalid_credentials : AppError
  too_many_login_attempts : ℤ → AppError
  password_hash : String → AppError
  unauthenticated : AppError
  forbidden db git container_start_failed container_unavailable : String → AppError
  command_failed no_container : String → AppError
  agent_unavailable agent_timeout : AppError
  agent_error agent_operation_failed : String → AppError
  too_large missing_upload_file : AppError
  zip multipart io json timestamp corrupt_data : String → AppError

abbrev pub AppResult : Type 0 → Type 0
AppResult A = Result A AppError

-- the `#[error]` attributes
unfoldable pub to_string : AppError → String
to_string (app_not_found s) = "app not found: " ++ s
to_string (deployment_not_found s) = "deployment not found: " ++ s
to_string (app_already_exists s) = "app already exists: " ++ s
to_string delete_active_deployment = "cannot delete the active deployment"
to_string (invalid_name s) = "invalid name: " ++ s
to_string (invalid_repo_url s) = "invalid repo url: " ++ s
to_string (not_git_sourced s) = "app " ++ (s ++ " is not git-sourced")
to_string (deployment_in_progress s) = "app " ++ (s ++ " already has a deployment in progress")
to_string (invalid_publish_dir s) = "invalid publish dir: " ++ s
to_string (invalid_run_config s) = "invalid run config: " ++ s
to_string (invalid_build_config s) = "invalid build config: " ++ s
to_string (invalid_env_var s) = "invalid env var key: " ++ s
to_string (invalid_username s) = "invalid username: " ++ s
to_string (invalid_role s) = "invalid role: " ++ s
to_string (invalid_password s) = s
to_string (user_not_found s) = "user not found: " ++ s
to_string (user_already_exists s) = "user already exists: " ++ s
to_string (invalid_token_expiry _) =
    "invalid token expiry: must be in the future and within the configured maximum"
to_string token_not_found = "token not found"
to_string host_not_found = "host not found"
to_string (host_already_exists s) = "host already exists: " ++ s
to_string (invalid_host_ip s) = "invalid host ip: " ++ s
to_string invalid_credentials = "invalid credentials"
to_string (too_many_login_attempts m) =
    "too many failed login attempts - try again in " ++ (decimal_ℤ m ++ " minute(s)")
to_string (password_hash s) = "password hashing failed: " ++ s
to_string unauthenticated = "not authenticated"
to_string (forbidden s) = s
to_string (db s) = "database error: " ++ s
to_string (git s) = "git fetch failed: " ++ s
to_string (container_start_failed s) = "container failed to start: " ++ s
to_string (container_unavailable s) = "container backend unavailable: " ++ s
to_string (command_failed s) = s
to_string (no_container s) = "deployment " ++ (s ++ " has no container")
to_string agent_unavailable = "no agent is currently connected"
to_string agent_timeout = "agent did not respond in time"
to_string (agent_error s) = "agent error: " ++ s
to_string (agent_operation_failed s) = "agent operation failed: " ++ s
to_string too_large = "upload too large"
to_string missing_upload_file = "missing 'file' field in upload"
to_string (zip s) = "zip error: " ++ s
to_string (multipart s) = s
to_string (io s) = s
to_string (json s) = s
to_string (timestamp s) = s
to_string (corrupt_data s) = "corrupt database row: " ++ s
