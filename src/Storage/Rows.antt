-- ===== src/Storage/Rows.antt =====
-- The rows of berth-hub/src/storage.rs and what is read from them.
use oxde.Prelude.{ℕ, String, ◌&&◌, Option, none, some, List, [], ◌∷◌, ◌==◌, find, filter}
use oxde.Prelude.Int.{ℤ, pos, negsuc}
use oxde.Prelude.Result.{ok, ◌>>=◌, ok_or, map_err, map_ok}
use oxde.Error.{AppError, AppResult}
use oxde.Models.{App, AppPermission, Deployment, DeploymentStatus, PermissionLevel}
use oxde.Models
use oxde.Db
use oxde.Db.{Db, JsonColumn, encoded, malformed, state_from_str, DeploymentState, level_from_str}
use oxde.Db.Query.{app_named, user_named, user_with_id, decode}
use oxde.Storage.Platform.{Platform}

abbrev pub find_app_row : Db → (name : String) → AppResult Db.App
find_app_row db name = ok_or (app_named db name) (AppError.app_not_found name)

abbrev pub find_user_id : Db → (username : String) → AppResult ℕ
find_user_id db username = do
  user ← ok_or (user_named db username) (AppError.user_not_found username)
  ok user.id

abbrev pub app_with_id : Db → ℕ → Option Db.App
app_with_id db id = find (λ a. a.id == id) db.apps

abbrev pub deployment_of : Db → (app_id deployment_id : ℕ) → Option Db.Deployment
deployment_of db app_id deployment_id =
    find (λ d. d.id == deployment_id && d.app_id == app_id) db.deployments

model_level : Db.PermissionLevel → PermissionLevel
model_level Db.PermissionLevel.read = Models.read
model_level Db.PermissionLevel.write = Models.write

-- A grant whose user is gone is skipped.
granted : Db → List Db.AppPermission → AppResult (List AppPermission)
unfolding model_level
granted db [] = ok []
granted db (row ∷ rows) =
    let rest = granted db rows in
    elim (user_with_id db row.user_id) [
      | none ↦ rest
      | some user ↦ do
        level ← map_err AppError.corrupt_data (level_from_str row.level)
        others ← rest
        ok (record { username = user.username; level = model_level level } ∷ others)
    ]

unfoldable pub load_permissions : Db → Db.App → AppResult (List AppPermission)
unfolding granted
load_permissions db app_row = granted db (filter (λ p. p.app_id == app_row.id) db.permissions)

status_of : DeploymentState → Option String → DeploymentStatus
status_of DeploymentState.pending _ = Models.pending
status_of DeploymentState.ready _ = Models.ready
status_of DeploymentState.failed none = Models.failed ""
status_of DeploymentState.failed (some error) = Models.failed error

-- `u64::try_from(…).unwrap_or(0)`
u64_or_zero : ℤ → ℕ
u64_or_zero (pos n) = n
u64_or_zero (negsuc _) = 0

decode_some : {A : Type 0} → Option (JsonColumn A) → AppResult (Option A)
decode_some none = ok none
decode_some (some json) = map_ok some (decode json)

module _ (p : Platform) where
  open p use {parse_str, uuid_string, from_second}

  unfoldable pub find_app_row_by_id : Db → (app_id : String) → AppResult Db.App
  find_app_row_by_id db app_id = do
    uuid ← ok_or (parse_str app_id) (AppError.app_not_found app_id)
    ok_or (app_with_id db uuid) (AppError.app_not_found app_id)

  -- A row that is missing is reported by the canonical spelling of the id.
  unfoldable pub find_deployment_row :
      Db → (app_id : ℕ) → (deployment_id : String) → AppResult Db.Deployment
  find_deployment_row db app_id deployment_id = do
    id ← ok_or (parse_str deployment_id) (AppError.deployment_not_found deployment_id)
    ok_or (deployment_of db app_id id) (AppError.deployment_not_found (uuid_string id))

  unfoldable pub app_from_row : Db.App → List AppPermission → AppResult App
  app_from_row row permissions = do
    created_at ← map_err AppError.timestamp (from_second row.created_at)
    updated_at ← map_err AppError.timestamp (from_second row.updated_at)
    source ← decode row.source_json
    env_vars ← decode row.env_vars_json
    ok (record {
      id = uuid_string row.id;
      name = row.name;
      created_at = created_at;
      updated_at = updated_at;
      host_id = row.host_id;
      source = source;
      env_vars = env_vars;
      permissions = permissions;
    })

  unfoldable pub app_from_row_with_permissions : Db → Db.App → AppResult App
  app_from_row_with_permissions db row = do
    permissions ← load_permissions db row
    app_from_row row permissions

  unfoldable pub deployment_from_row : Db.Deployment → (app_name : String) → AppResult Deployment
  unfolding status_of u64_or_zero decode_some
  deployment_from_row row app_name = do
    state_tag ← map_err AppError.corrupt_data (state_from_str row.status)
    git ← decode_some row.git_info_json
    build_info ← decode_some row.build_info_json
    created_at ← map_err AppError.timestamp (from_second row.created_at)
    ok (record {
      id = uuid_string row.id;
      app = app_name;
      created_at = created_at;
      original_filename = row.original_filename;
      upload_size_bytes = u64_or_zero row.upload_size_bytes;
      git = git;
      build_info = build_info;
      container_name = row.container_name;
      status = status_of state_tag row.failure_error;
    })
