-- ===== src/Api.antt =====
-- berth-hub/src/routes/api.rs: the access that every route of an app asks for, and what the API shows
-- of apps. `Lifecycle` has the calls that start and stop containers, `Upload` the reading of an
-- upload.
pub mod Views
pub mod Lifecycle
pub mod Serving
pub mod Stopping
pub mod Upload
pub mod LogRoute
pub mod Tests
use oxde.Prelude.{
  ℕ, String, Bool, true, false, ◌||◌, Option, none, some, List, [], ◌∷◌, str_eq, if◌then◌else◌,
  filter, map,
}
use oxde.Prelude.Int.{ℤ}
use oxde.Prelude.Result.{ok, err, ◌>>=◌, ◌>>◌, map_ok}
use oxde.Error.{AppError, AppResult}
use oxde.Http.{Method, get, head}
use oxde.Accounts.{AccountRole, admin, member, CurrentUser, check_app_permission}
use oxde.Models
use oxde.Models.{
  App, AppPermission, AppSource, EnvVar, EnvVarValue, Deployment, PermissionLevel, read, write,
  has_permission,
}
use oxde.Db.{Db}
use oxde.Storage.Platform.{Platform}
use oxde.Storage.Apps.{get_app_by_id}
use oxde.Storage.Listing
use oxde.Storage.Listing.{active_deployment_id}

abbrev pub required_level : Method → PermissionLevel
required_level get = read
required_level head = read
required_level _ = write

-- `none` for a route without the parameter
unfoldable pub enforce_app_access :
    Platform → Db → CurrentUser → Method → (app_id : Option String) → AppResult (Unit {0})
enforce_app_access p db user method none = err (AppError.app_not_found "")
enforce_app_access p db user method (some app_id) = do
  app ← get_app_by_id p db app_id
  check_app_permission user app (required_level method)

pub record AppView : Type 0 where
  pub id : String
  pub name : String
  pub created_at : ℤ
  pub updated_at : ℤ
  pub active_deployment_id : Option String
  pub host_id : ℕ
  pub source : AppSource
  pub env_vars : List EnvVar
  pub permissions : List AppPermission

abbrev secret_mask : String
secret_mask = "••••••••"

abbrev pub masked : EnvVarValue → EnvVarValue
masked (EnvVarValue.secret _) = EnvVarValue.secret secret_mask
masked (EnvVarValue.plain value) = EnvVarValue.plain value

unfoldable pub mask_secrets : List EnvVar → List EnvVar
mask_secrets [] = []
mask_secrets (env_var ∷ env_vars) =
    record env_var { value = masked env_var.value } ∷ mask_secrets env_vars

unfoldable pub app_view : Platform → Db → App → AppView
unfolding mask_secrets
app_view p db app = record {
  id = app.id;
  name = app.name;
  created_at = app.created_at;
  updated_at = app.updated_at;
  active_deployment_id = Listing.active_deployment_id p db app.id;
  host_id = app.host_id;
  source = app.source;
  env_vars = mask_secrets app.env_vars;
  permissions = app.permissions;
}

abbrev pub is_admin : AccountRole → Bool
is_admin admin = true
is_admin member = false

abbrev views_of : Platform → Db → CurrentUser → List App → List AppView
views_of p db user [] = []
views_of p db user (app ∷ apps) =
    let rest = views_of p db user apps in
    if is_admin user.role || has_permission app user.username read
    then app_view p db app ∷ rest
    else rest

unfoldable pub list_apps : Platform → Db → CurrentUser → AppResult (List AppView)
unfolding Listing.list_apps app_view
list_apps p db user = do apps ← Listing.list_apps p db; ok (views_of p db user apps)

unfoldable pub get_app : Platform → Db → (id : String) → AppResult AppView
unfolding app_view
get_app p db id = do app ← get_app_by_id p db id; ok (app_view p db app)

-- the creator's grant of `create_app`: an admin needs none
unfoldable pub creator_of : CurrentUser → Option String
creator_of user = elim user.role [ admin ↦ none | member ↦ some user.username ]

pub data ContainerStatus : Type 0 where
  running stopped unknown : ContainerStatus

pub record DeploymentView : Type 0 where
  pub deployment : Deployment
  pub is_active : Bool
  pub container_status : Option ContainerStatus

abbrev pub same_id : Option String → String → Bool
same_id none id = false
same_id (some active) id = str_eq active id

unfoldable pub status_of : AppResult Bool → ContainerStatus
status_of (ok true) = running
status_of (ok false) = stopped
status_of (err e) = unknown
