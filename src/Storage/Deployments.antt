-- ===== src/Storage/Deployments.antt =====
-- The deployments of berth-hub/src/storage.rs. The UUID of a new row and the clock's reading are
-- arguments; a write to the file system fails only as the code expects it to.
pub mod Rooted
pub mod Apps
pub mod Active
pub mod Steps
pub mod Spelling
pub mod Tests
use Prim.Native.String.{◌++◌ as ◌^^◌}
use oxde.Prelude.{
  ℕ, leb, ltb, String, Bool, true, false, not, ◌&&◌, Option, none, some, List, [], ◌∷◌, ◌++◌, ◌==◌,
  str_eq, find, filter, any, update_where, if◌then◌else◌,
}
use oxde.Prelude.Find.{map_option}
use oxde.Prelude.Int.{ℤ, pos}
use oxde.Prelude.Result.{Result, ok, err, ◌>>=◌, ◌>>◌, ok_or, map_err, ensure, collect, map_ok}
use oxde.Error.{AppError, AppResult}
use oxde.Models
use oxde.Models.{
  AppSource, GitSource, GitDeployMode, Deployment, DeploymentStatus, GitDeploymentInfo, BuildInfo,
}
use oxde.Db
use oxde.Db.{Db, encoded, state_str, DeploymentState}
use oxde.Db.Query.{decode}
use oxde.Storage.Platform.{Platform}
use oxde.Storage.Rows.{find_app_row_by_id, find_deployment_row, deployment_from_row}
use oxde.Storage.Apps.{Store, DeploymentDir}

-- `containers::container_name` (berth-hub/src/containers.rs)
unfoldable pub container_name : (app_id deployment_id : String) → String
container_name app_id deployment_id = "berth-" ^^ (app_id ^^ ("-" ^^ deployment_id))

unfoldable pub git_of : (name : String) → AppSource → AppResult GitSource
git_of name AppSource.upload = err (AppError.not_git_sourced name)
git_of name (AppSource.git source) = ok source

abbrev pub is_pending : Db.Deployment → Bool
is_pending row = str_eq row.status (state_str DeploymentState.pending)

status_columns : DeploymentStatus → DeploymentState × Option String
status_columns Models.pending = (DeploymentState.pending, none)
status_columns Models.ready = (DeploymentState.ready, none)
status_columns (Models.failed error) = (DeploymentState.failed, some error)

abbrev pub update_deployment : Db → (id : ℕ) → (Db.Deployment → Db.Deployment) → Db
update_deployment db id f = record db {
  deployments = update_where (λ d. d.id == id) f db.deployments;
}

insert_by_id : Db.Deployment → List Db.Deployment → List Db.Deployment
insert_by_id row [] = row ∷ []
insert_by_id row (r ∷ rows) =
    let rest = insert_by_id row rows in if leb row.id r.id then row ∷ r ∷ rows else r ∷ rest

abbrev sort_by_id : List Db.Deployment → List Db.Deployment
sort_by_id [] = []
sort_by_id (row ∷ rows) = insert_by_id row (sort_by_id rows)

module _ (p : Platform) where
  open p use {uuid_string}

  run_container_name : (app_id id : ℕ) → GitDeployMode → Option String
  unfolding container_name
  run_container_name app_id id (GitDeployMode.run _) =
      some (container_name (uuid_string app_id) (uuid_string id))
  run_container_name app_id id (GitDeployMode.build _) = none
  run_container_name app_id id (GitDeployMode.static _) = none

  unfoldable pub create_pending_git_deployment :
      Store
      → (now : ℤ) (id : ℕ) → (app_id : String)
      → AppResult (Store × AppResult (Deployment × GitSource))
  unfolding git_of run_container_name
  create_pending_git_deployment store now id app_id = do
    app_row ← find_app_row_by_id p store.db app_id
    source ← decode app_row.source_json
    git_source ← git_of app_row.name source
    ensure (not (any is_pending (filter (λ d. d.app_id == app_row.id) store.db.deployments)))
        (AppError.deployment_in_progress app_row.name)
    let row : Db.Deployment = record {
      id = id;
      app_id = app_row.id;
      created_at = now;
      original_filename = none;
      upload_size_bytes = pos 0;
      git_info_json = none;
      build_info_json = none;
      container_name = run_container_name app_row.id id git_source.mode;
      status = state_str DeploymentState.pending;
      failure_error = none;
    }
    let next = record store {
      db = record store.db { deployments = store.db.deployments ++ row ∷ [] };
      deployment_dirs =
          store.deployment_dirs ++ record { app_id = app_row.id; name = uuid_string id } ∷ [];
    }
    ok (
      next,
      map_ok (λ deployment. (deployment, git_source)) (deployment_from_row p row app_row.name),
    )

  unfoldable pub set_deployment_status :
      Db → (app_id deployment_id : String) → DeploymentStatus → AppResult Db
  unfolding status_columns
  set_deployment_status db app_id deployment_id status = do
    app_row ← find_app_row_by_id p db app_id
    deployment_row ← find_deployment_row p db app_row.id deployment_id
    let (state_tag, failure_error) = status_columns status
    ok (
        update_deployment db deployment_row.id
          (λ d. record d { status = state_str state_tag; failure_error = failure_error }))

  unfoldable pub mark_git_deployment_ready : Db → (app_id deployment_id : String) → AppResult Db
  mark_git_deployment_ready db app_id deployment_id =
      set_deployment_status db app_id deployment_id Models.ready

  unfoldable pub fail_git_deployment : Db → (app_id deployment_id error : String) → AppResult Db
  fail_git_deployment db app_id deployment_id error =
      set_deployment_status db app_id deployment_id (Models.failed error)

  unfoldable pub list_deployments : Db → (app_id : String) → AppResult (List Deployment)
  unfolding insert_by_id
  list_deployments db app_id = do
    app_row ← find_app_row_by_id p db app_id
    collect (λ row. deployment_from_row p row app_row.name)
        (sort_by_id (filter (λ d. d.app_id == app_row.id) db.deployments))

  unfoldable pub get_deployment : Db → (app_id deployment_id : String) → AppResult Deployment
  get_deployment db app_id deployment_id = do
    app_row ← find_app_row_by_id p db app_id
    row ← find_deployment_row p db app_row.id deployment_id
    deployment_from_row p row app_row.name

  unfoldable pub activate_deployment :
      Db → (now : ℤ) → (app_id deployment_id : String) → AppResult Db
  activate_deployment db now app_id deployment_id = do
    app_row ← find_app_row_by_id p db app_id
    deployment_row ← find_deployment_row p db app_row.id deployment_id
    let apply : Db.App → Db.App =
        λ a. record a { active_deployment_id = some deployment_row.id; updated_at = now }
    ok (record db { apps = update_where (λ a. a.id == app_row.id) apply db.apps })

  unfoldable pub names_active : Option ℕ → (deployment_id : String) → Bool
  names_active none deployment_id = false
  names_active (some id) deployment_id = str_eq (uuid_string id) deployment_id

  unfoldable pub delete_deployment_row : Db → (app_id deployment_id : String) → AppResult (Db × ℕ)
  unfolding names_active
  delete_deployment_row db app_id deployment_id = do
    app_row ← find_app_row_by_id p db app_id
    ensure (not (names_active app_row.active_deployment_id deployment_id))
        AppError.delete_active_deployment
    deployment_row ← find_deployment_row p db app_row.id deployment_id
    ok (
      record db { deployments = filter (λ d. not (d.id == deployment_row.id)) db.deployments },
      app_row.id,
    )

  -- The rename of the deployment's directory, named by the spelling of the request.
  unfoldable pub remove_deployment_dir :
      Store → (app_id : ℕ) → (deployment_id : String) → Store × AppResult (Unit {0})
  remove_deployment_dir store app_id deployment_id =
      if any (λ d. d.app_id == app_id && str_eq d.name deployment_id) store.deployment_dirs
      then (
        record store {
          deployment_dirs =
              filter (λ d. not (d.app_id == app_id && str_eq d.name deployment_id))
                store.deployment_dirs;
        },
        ok tt,
      )
      else (store, err (AppError.deployment_not_found deployment_id))

  unfoldable pub after_row :
      Store → (deployment_id : String) → AppResult (Db × ℕ) → Store × AppResult (Unit {0})
  after_row store deployment_id (err e) = (store, err e)
  after_row store deployment_id (ok (db, app_id)) =
      remove_deployment_dir (record store { db = db }) app_id deployment_id

  unfoldable pub delete_deployment :
      Store → (app_id deployment_id : String) → Store × AppResult (Unit {0})
  unfolding after_row
  delete_deployment store app_id deployment_id =
      after_row store deployment_id (delete_deployment_row store.db app_id deployment_id)
