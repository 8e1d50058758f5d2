-- ===== src/Storage/Apps.antt =====
-- The apps of berth-hub/src/storage.rs. A handler's clock readings, the UUID of a new row and the
-- ids of new grants are arguments; the directory of an app stands for `apps/<id>` with its
-- `deployments` directory, and that of a deployment for `apps/<id>/deployments/<name>`.
pub mod Deleted
use oxde.Prelude.{
  ℕ, suc, String, not, Option, none, some, List, [], ◌∷◌, ◌++◌, ◌==◌, str_eq, filter, any,
  update_where, if◌then◌else◌,
}
use oxde.Prelude.Int.{ℤ}
use oxde.Prelude.Text.{is_some}
use oxde.Prelude.Result.{ok, err, ◌>>=◌, ◌>>◌, map_err, map_ok, ensure, collect}
use oxde.Error.{AppError, AppResult}
use oxde.Models
use oxde.Models.{
  App, AppPermission, AppSource, EnvVar, EnvVarInput, GitSource, GitDeployMode, ModelError,
}
use oxde.Models.Validate.{
  validate_slug, validate_repo_url, validate_run_config, validate_build_config,
  validate_env_var_inputs,
}
use oxde.Db
use oxde.Db.{Db, encoded, level_str, Host}
use oxde.Db.Query.{app_named, host_with_id, decode}
use oxde.Secrets.{Crypto, Bytes}
use oxde.Storage.Platform.{Platform}
use oxde.Storage.EnvVars.{resolve_env_var_inputs}
use oxde.Storage.Rows.{
  find_app_row, find_user_id, find_app_row_by_id, app_from_row_with_permissions,
}

pub record DeploymentDir : Type 0 where
  pub app_id : ℕ
  pub name : String

-- The database and the directories under the hub's data directory.
pub record Store : Type 0 where
  pub db : Db
  pub app_dirs : List ℕ
  pub deployment_dirs : List DeploymentDir

-- `impl From<ModelError> for AppError` (berth-hub/src/error.rs)
unfoldable pub app_error : ModelError → AppError
app_error (ModelError.invalid_name s) = AppError.invalid_name s
app_error (ModelError.invalid_repo_url s) = AppError.invalid_repo_url s
app_error (ModelError.invalid_run_config s) = AppError.invalid_run_config s
app_error (ModelError.invalid_build_config s) = AppError.invalid_build_config s
app_error (ModelError.invalid_env_var s) = AppError.invalid_env_var s

usable_host : Option Host → AppResult (Unit {0})
usable_host none = err AppError.host_not_found
usable_host (some host) = if host.revoked then err AppError.host_not_found else ok tt

unfoldable pub validate_host_id : Db → (host_id : ℕ) → AppResult (Unit {0})
unfolding usable_host
validate_host_id db host_id = usable_host (host_with_id db host_id)

validate_mode : GitDeployMode → AppResult (Unit {0})
unfolding app_error
validate_mode (GitDeployMode.run config) = map_err app_error (validate_run_config config)
validate_mode (GitDeployMode.build config) = map_err app_error (validate_build_config config)
validate_mode (GitDeployMode.static _) = ok tt

unfoldable pub validate_source : AppSource → AppResult (Unit {0})
unfolding app_error validate_mode
validate_source AppSource.upload = ok tt
validate_source (AppSource.git source) = do
  map_err app_error (validate_repo_url source.repo_url)
  validate_mode source.mode

unfoldable pub creator_id : Db → Option String → AppResult (Option ℕ)
creator_id db none = ok none
creator_id db (some username) = map_ok some (find_user_id db username)

grant_row : (app_id id : ℕ) (now : ℤ) → ℕ × String → Db.AppPermission
grant_row app_id id now (user_id, level) = record {
  id = id;
  app_id = app_id;
  user_id = user_id;
  level = level;
  created_at = now;
  updated_at = now;
}

-- The grants of one transaction, with ascending ids from the first.
grant_rows : (app_id first_id : ℕ) (now : ℤ) → List (ℕ × String) → List Db.AppPermission
unfolding grant_row
grant_rows app_id first_id now [] = []
grant_rows app_id first_id now (g ∷ grants) =
    grant_row app_id first_id now g ∷ grant_rows app_id (suc first_id) now grants

creator_grants : Option ℕ → List (ℕ × String)
creator_grants none = []
creator_grants (some user_id) = (user_id, level_str Db.PermissionLevel.write) ∷ []

db_level : Models.PermissionLevel → String
db_level Models.read = level_str Db.PermissionLevel.read
db_level Models.write = level_str Db.PermissionLevel.write

abbrev name_is_free : Db → (name : String) → AppResult (Unit {0})
name_is_free db name = ensure (not (is_some (app_named db name))) (AppError.app_already_exists name)

renamed : Db → (old : String) → Option String → AppResult String
renamed db old none = ok old
renamed db old (some name) =
    if str_eq name old
    then ok name
    else (do map_err app_error (validate_slug name); name_is_free db name; ok name)

moved : Db → (old : ℕ) → Option ℕ → AppResult ℕ
moved db old none = ok old
moved db old (some host_id) = do validate_host_id db host_id; ok host_id

validate_optional : Option (List EnvVarInput) → AppResult (Unit {0})
validate_optional none = ok tt
validate_optional (some env_vars) = map_err app_error (validate_env_var_inputs env_vars)

module _ (p : Platform) (c : Crypto) where
  unfoldable pub create_app :
      Store
      → (now : ℤ) (id first_grant : ℕ) (nonce : String → Bytes) → (name : String) → AppSource
      → List EnvVarInput
      → (creator : Option String) → (host_id : ℕ) → AppResult (Store × AppResult App)
  unfolding creator_id creator_grants grant_rows
  create_app store now id first_grant nonce name source inputs creator host_id = do
    map_err app_error (validate_slug name)
    map_err app_error (validate_env_var_inputs inputs)
    env_vars ← resolve_env_var_inputs c nonce inputs []
    validate_source source
    name_is_free store.db name
    validate_host_id store.db host_id
    user_id ← creator_id store.db creator
    let row : Db.App = record {
      id = id;
      name = name;
      source_json = encoded source;
      env_vars_json = encoded env_vars;
      active_deployment_id = none;
      host_id = host_id;
      created_at = now;
      updated_at = now;
    }
    let db = record store.db {
      apps = store.db.apps ++ row ∷ [];
      permissions = store.db.permissions ++ grant_rows id first_grant now (creator_grants user_id);
    }
    ok (
      record store { db = db; app_dirs = store.app_dirs ++ id ∷ [] },
      app_from_row_with_permissions p db row,
    )

  -- `env_vars.map(…).transpose()?`, where the row's variables are read only if they are replaced
  unfoldable pub replaced_env_vars :
      (nonce : String → Bytes)
      → Db.App
      → Option (List EnvVarInput)
      → AppResult (Db.JsonColumn (List EnvVar))
  replaced_env_vars nonce row none = ok row.env_vars_json
  replaced_env_vars nonce row (some inputs) = do
    existing ← decode row.env_vars_json
    env_vars ← resolve_env_var_inputs c nonce inputs existing
    ok (encoded env_vars)

  unfoldable pub update_app :
      Db
      → (now : ℤ) (nonce : String → Bytes) → (app_id : String) (name : Option String)
      → Option (List EnvVarInput)
      → (host_id : Option ℕ) → AppResult (Db × AppResult App)
  unfolding validate_optional renamed moved
  update_app db now nonce app_id name inputs host_id = do
    validate_optional inputs
    row ← find_app_row_by_id p db app_id
    env_vars_json ← replaced_env_vars nonce row inputs
    host ← moved db row.host_id host_id
    new_name ← renamed db row.name name
    let apply : Db.App → Db.App = λ r. record r {
      name = new_name;
      env_vars_json = env_vars_json;
      host_id = host;
      updated_at = now;
    }
    let next = record db { apps = update_where (λ a. a.id == row.id) apply db.apps }
    ok (next, app_from_row_with_permissions p next (apply row))

module _ (p : Platform) where
  unfoldable pub get_app : Db → (name : String) → AppResult App
  get_app db name = do row ← find_app_row db name; app_from_row_with_permissions p db row

  unfoldable pub get_app_by_id : Db → (app_id : String) → AppResult App
  get_app_by_id db app_id = do
    row ← find_app_row_by_id p db app_id
    app_from_row_with_permissions p db row

  resolve_grant : Db → AppPermission → AppResult (ℕ × String)
  unfolding db_level
  resolve_grant db permission = do
    user_id ← find_user_id db permission.username
    ok (user_id, db_level permission.level)

  unfoldable pub update_app_permissions :
      Db
      → (now : ℤ) (first_grant : ℕ) → (app_id : String) → List AppPermission
      → AppResult (Db × AppResult App)
  unfolding resolve_grant grant_rows
  update_app_permissions db now first_grant app_id permissions = do
    app_row ← find_app_row_by_id p db app_id
    resolved ← collect (resolve_grant db) permissions
    let next = record db {
      permissions =
          filter (λ g. not (g.app_id == app_row.id)) db.permissions
          ++ grant_rows app_row.id first_grant now resolved;
    }
    ok (next, app_from_row_with_permissions p next app_row)

  -- The rename of the app's directory fails if there is none, after the rows are gone.
  unfoldable pub remove_app_dir : Store → (id : ℕ) → Store × AppResult (Unit {0})
  remove_app_dir store id =
      if any (λ d. d == id) store.app_dirs
      then (
        record store {
          app_dirs = filter (λ d. not (d == id)) store.app_dirs;
          deployment_dirs = filter (λ d. not (d.app_id == id)) store.deployment_dirs;
        },
        ok tt,
      )
      else (store, err (AppError.io "no such directory"))

  unfoldable pub without_app : Store → (id : ℕ) → Store
  without_app store id = record store {
    db = record store.db {
      deployments = filter (λ d. not (d.app_id == id)) store.db.deployments;
      permissions = filter (λ g. not (g.app_id == id)) store.db.permissions;
      apps = filter (λ a. not (a.id == id)) store.db.apps;
    };
  }

  unfoldable pub deleted_app : Store → AppResult Db.App → Store × AppResult (Unit {0})
  deleted_app store (err e) = (store, err e)
  deleted_app store (ok app_row) = remove_app_dir (without_app store app_row.id) app_row.id

  unfoldable pub delete_app : Store → (app_id : String) → Store × AppResult (Unit {0})
  unfolding deleted_app
  delete_app store app_id = deleted_app store (find_app_row_by_id p store.db app_id)
