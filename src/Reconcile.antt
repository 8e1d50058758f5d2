-- ===== src/Reconcile.antt =====
-- berth-hub/src/reconcile.rs: what the hub does whenever an agent connects. Log pumps and the removal
-- of directories without rows are left out.
pub mod Running
pub mod Tests
use oxde.Prelude.{ℕ, String, Bool, true, false, Option, none, some, List, [], ◌∷◌}
use oxde.Prelude.Result.{ok, err}
use oxde.Error.{AppResult}
use oxde.Models
use oxde.Models.{App, Deployment, DeploymentStatus, RunConfig, run_config}
use oxde.Db.{Db}
use oxde.Secrets.{Crypto}
use oxde.Storage.Platform.{Platform}
use oxde.Storage.EnvVars.{decrypt_env_vars}
use oxde.Storage.Deployments.{get_deployment, list_deployments, fail_git_deployment}
use oxde.Storage.Listing.{list_apps, active_deployment_id}
use oxde.Containers.{Agents}

abbrev pub is_pending : DeploymentStatus → Bool
is_pending Models.pending = true
is_pending Models.ready = false
is_pending (Models.failed error) = false

-- An error is only logged.
abbrev pub or_same : Db → AppResult Db → Db
or_same db (ok db') = db'
or_same db (err e) = db

abbrev pub interrupted : String
interrupted = "interrupted by server restart"

module _ (p : Platform) (c : Crypto) (agents : Agents) where
  open agents use {Machines, start, stop_and_remove}

  abbrev remove_installer : Machines → (host_id : ℕ) → Option String → Machines
  remove_installer m host_id none = m
  remove_installer m host_id (some name) = (stop_and_remove m host_id name true).0

  -- the inner loop: the deployments of one app
  unfoldable pub fail_pending_of : Db → Machines → App → List Deployment → Db × Machines
  fail_pending_of db m app [] = (db, m)
  fail_pending_of db m app (d ∷ deployments) =
      let next_db = or_same db (fail_git_deployment p db app.id d.id interrupted) in
      let next_m = remove_installer m app.host_id d.container_name in
      elim (is_pending d.status) [
        | true ↦ fail_pending_of next_db next_m app deployments
        | false ↦ fail_pending_of db m app deployments
      ]

  abbrev deployments_or_none : AppResult (List Deployment) → List Deployment
  deployments_or_none (ok deployments) = deployments
  deployments_or_none (err e) = []

  unfoldable pub fail_pending_apps : Db → Machines → List App → Db × Machines
  unfolding fail_pending_of
  fail_pending_apps db m [] = (db, m)
  fail_pending_apps db m (app ∷ apps) =
      let done = fail_pending_of db m app (deployments_or_none (list_deployments p db app.id)) in
      fail_pending_apps done.0 done.1 apps

  abbrev apps_or_none : AppResult (List App) → List App
  apps_or_none (ok apps) = apps
  apps_or_none (err e) = []

  -- The apps of every host, whichever agent has connected.
  unfoldable pub fail_pending_deployments : Db → Machines → Db × Machines
  unfolding fail_pending_apps
  fail_pending_deployments db m = fail_pending_apps db m (apps_or_none (list_apps p db))

  unfoldable pub reconcile_run :
      Db → Machines → (install_timeout : ℕ) → App → RunConfig → Machines × AppResult (Unit {0})
  reconcile_run db m install_timeout app config = elim (active_deployment_id p db app.id) [
    | none ↦ (m, ok tt)
    | some deployment_id ↦ elim (get_deployment p db app.id deployment_id) [
      | err e ↦ (m, err e)
      | ok deployment ↦ elim deployment.container_name [
        | none ↦ (m, ok tt)
        | some name ↦ elim (decrypt_env_vars c app.env_vars) [
          | err e ↦ (m, err e)
          | ok env_vars ↦ start m app.host_id (record {
            deployment_id = deployment_id;
            container_name = name;
            run_config = config;
            env_vars = env_vars;
            install_timeout_secs = install_timeout;
          })
        ]
      ]
    ]
  ]

  unfoldable pub reconcile_app :
      Db → Machines → (install_timeout : ℕ) → App → Machines × AppResult (Unit {0})
  unfolding reconcile_run
  reconcile_app db m install_timeout app = elim (run_config app) [
    | none ↦ (m, ok tt)
    | some config ↦ reconcile_run db m install_timeout app config
  ]

  abbrev pub reconcile_apps : Db → Machines → (install_timeout : ℕ) → List App → Machines
  reconcile_apps db m install_timeout [] = m
  reconcile_apps db m install_timeout (app ∷ apps) =
      reconcile_apps db (reconcile_app db m install_timeout app).0 install_timeout apps

  unfoldable pub reconcile_run_mode_containers : Db → Machines → (install_timeout : ℕ) → Machines
  unfolding reconcile_app
  reconcile_run_mode_containers db m install_timeout =
      reconcile_apps db m install_timeout (apps_or_none (list_apps p db))

  unfoldable pub on_agent_connected : Db → Machines → (install_timeout : ℕ) → Db × Machines
  unfolding fail_pending_deployments reconcile_run_mode_containers
  on_agent_connected db m install_timeout =
      let failed = fail_pending_deployments db m in
      (failed.0, reconcile_run_mode_containers failed.0 failed.1 install_timeout)
