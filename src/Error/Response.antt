-- ===== src/Error/Response.antt =====
-- `impl IntoResponse for AppError` in berth-hub/src/error.rs.
use oxde.Prelude.{refl, ℕ, ◌≤◌, String, Bool, true, ◌&&◌, ◌≡◌, arith, leb, ltb, if◌then◌else◌}
use oxde.Error.{AppError, to_string}

unfoldable pub status : AppError → ℕ
status (AppError.app_not_found _) = 404
status (AppError.deployment_not_found _) = 404
status (AppError.user_not_found _) = 404
status AppError.token_not_found = 404
status AppError.host_not_found = 404
status (AppError.app_already_exists _) = 409
status AppError.delete_active_deployment = 409
status (AppError.deployment_in_progress _) = 409
status (AppError.user_already_exists _) = 409
status (AppError.host_already_exists _) = 409
status (AppError.invalid_name _) = 400
status (AppError.invalid_host_ip _) = 400
status (AppError.invalid_repo_url _) = 400
status (AppError.not_git_sourced _) = 400
status (AppError.invalid_publish_dir _) = 400
status (AppError.invalid_run_config _) = 400
status (AppError.invalid_build_config _) = 400
status (AppError.invalid_env_var _) = 400
status (AppError.invalid_username _) = 400
status (AppError.invalid_role _) = 400
status (AppError.invalid_password _) = 400
status (AppError.invalid_token_expiry _) = 400
status (AppError.no_container _) = 400
status AppError.missing_upload_file = 400
status (AppError.git _) = 400
status (AppError.command_failed _) = 400
status AppError.invalid_credentials = 401
status AppError.unauthenticated = 401
status (AppError.forbidden _) = 403
status AppError.too_large = 413
status (AppError.too_many_login_attempts _) = 429
status (AppError.container_start_failed _) = 502
status (AppError.container_unavailable _) = 502
status AppError.agent_unavailable = 502
status AppError.agent_timeout = 502
status (AppError.agent_error _) = 502
status (AppError.agent_operation_failed _) = 502
status (AppError.zip _) = 500
status (AppError.multipart _) = 500
status (AppError.io _) = 500
status (AppError.json _) = 500
status (AppError.password_hash _) = 500
status (AppError.timestamp _) = 500
status (AppError.corrupt_data _) = 500
status (AppError.db _) = 500

-- `StatusCode::is_server_error`
abbrev is_server_error : ℕ → Bool
is_server_error s = leb 500 s && ltb s 600

pub record Response : Type 0 where
  pub code : ℕ
  pub error : String

pub into_response : AppError → Response
into_response e =
    let s = status e in
    record { code = s; error = if is_server_error s then "internal server error" else to_string e }

-- A 5xx status is 500 or 502.
server_status : (e : AppError) → 500 ≤ status e → is_server_error (status e) ≡ true
unfolding status
server_status (AppError.db _) h = refl
server_status e h = ground arith

-- What an error carries, and which of its kinds it is, cannot be told from a response of status
-- 500 or above, beyond that status: two such errors with one status become the same response.
pub into_response_hides :
    (e e' : AppError) → 500 ≤ status e → status e ≡ status e' → into_response e ≡ into_response e'
unfolding into_response
into_response_hides e e' h same = ground (arith, server_status e h)
