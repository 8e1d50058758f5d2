-- ===== src/Storage/Deployments/Spelling.antt =====
-- What `delete_deployment` of berth-hub/src/storage.rs does with each spelling of an id.
use oxde.Prelude.{
  ℕ, String, ◌≡◌, ◌≢◌, refl, true, false, not, ◌&&◌, none, some, arith, ◌==◌, str_eq, eq_iff, any,
  filter,
}
use oxde.Prelude.Find.{find-filter_gone}
use oxde.Prelude.Result.{ok, err}
use oxde.Error.{AppError}
use oxde.Db
use oxde.Db.{Db}
use oxde.Storage.Platform.{Platform}
use oxde.Storage.Rows.{deployment_of, find_app_row_by_id, find_deployment_row}
use oxde.Storage.Apps.{Store}
use oxde.Storage.Deployments.{
  delete_deployment_row, delete_deployment, remove_deployment_dir, names_active, after_row,
}

-- Asked by the canonical spelling of its id, the active deployment of an app is not deleted, and
-- nothing changes.
pub delete_active_refused :
    (p : Platform) (store : Store) (app_id : String) (app : Db.App) (active : ℕ)
    → find_app_row_by_id p store.db app_id ≡ ok app
    → app.active_deployment_id ≡ some active
    → delete_deployment p store app_id (p.uuid_string active)
      ≡ (store, err AppError.delete_active_deployment)
unfolding delete_deployment delete_deployment_row after_row names_active
delete_active_refused p store app_id app active found is_active =
    let same : str_eq (p.uuid_string active) (p.uuid_string active) ≡ true =
      (eq_iff (p.uuid_string active) (p.uuid_string active)).1 refl in
    rw (found, is_active, same) refl

-- the store without the rows of a deployment
abbrev without_row : Store → (id : ℕ) → Store
without_row store id = record store {
  db = record store.db { deployments = filter (λ d. not (d.id == id)) store.db.deployments };
}

respelled_run :
    (p : Platform) (store : Store) (app_id respelled : String) (app : Db.App) (row : Db.Deployment)
    → find_app_row_by_id p store.db app_id ≡ ok app
    → names_active p app.active_deployment_id respelled ≡ false
    → find_deployment_row p store.db app.id respelled ≡ ok row
    → any (λ d. d.app_id == app.id && str_eq d.name respelled) store.deployment_dirs ≡ false
    → delete_deployment p store app_id respelled
      ≡ (without_row store row.id, err (AppError.deployment_not_found respelled))
unfolding delete_deployment delete_deployment_row after_row remove_deployment_dir
respelled_run p store app_id respelled app row found inactive there no_dir =
    rw (found, inactive, there, no_dir) refl

-- Asked by another spelling of its id, which names no directory, the active deployment of an app is
-- reported as not found, but its row is gone: the app's active id leads nowhere.
pub delete_active_respelled :
    (p : Platform) (store : Store) (app_id respelled : String) (app : Db.App) (row : Db.Deployment)
    → find_app_row_by_id p store.db app_id ≡ ok app
    → app.active_deployment_id ≡ some row.id
    → find_deployment_row p store.db app.id respelled ≡ ok row
    → p.uuid_string row.id ≢ respelled
    → any (λ d. d.app_id == app.id && str_eq d.name respelled) store.deployment_dirs ≡ false
    → ((delete_deployment p store app_id respelled).1
        ≡ err (AppError.deployment_not_found respelled))
      × (find_app_row_by_id p (delete_deployment p store app_id respelled).0.db app_id ≡ ok app)
      × (deployment_of (delete_deployment p store app_id respelled).0.db app.id row.id ≡ none)
unfolding names_active find_app_row_by_id
delete_active_respelled p store app_id respelled app row found is_active there other no_dir =
    let differs : str_eq (p.uuid_string row.id) respelled ≡ false =
      ground (arith, other, eq_iff (p.uuid_string row.id) respelled) in
    let inactive : names_active p app.active_deployment_id respelled ≡ false =
      rw is_active differs in
    let gone =
      find-filter_gone (λ d. d.id == row.id && d.app_id == app.id) (λ d. not (d.id == row.id))
        store.db.deployments (λ d t. ground (arith, t)) in
    rw (respelled_run p store app_id respelled app row found inactive there no_dir)
      (refl, found, gone)
