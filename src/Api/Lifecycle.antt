-- ===== src/Api/Lifecycle.antt =====
-- berth-hub/src/routes/api.rs: activating and deleting deployments with their containers. `Agents`
-- is the section's interface to the containers of all hosts. The pump of the run log is started
-- beside the rest and is left out.
use oxde.Prelude.{ℕ, String, false, Option, none, some, List, [], ◌∷◌, str_eq, if◌then◌else◌}
use oxde.Prelude.Int.{ℤ}
use oxde.Prelude.Result.{ok, err, ◌>>=◌, ◌>>◌, ok_or}
use oxde.Error.{AppError, AppResult}
use oxde.Models.{App, Deployment, RunConfig, run_config}
use oxde.Db.{Db}
use oxde.Secrets.{Crypto}
use oxde.Storage.Platform.{Platform}
use oxde.Storage.Apps.{Store, get_app_by_id, delete_app}
use oxde.Storage.EnvVars.{decrypt_env_vars}
use oxde.Storage.Deployments
use oxde.Storage.Deployments.{get_deployment, list_deployments, activate_deployment}
use oxde.Storage.Listing.{active_deployment_id}
use oxde.Containers.{Agents, StartRequest}
use oxde.Api.{DeploymentView, same_id, status_of}

-- What an activation finds once the start of its container has returned, and once the previous one
-- has been stopped: other requests are served in the meantime. `saved` is the answer to its update.
pub record Meanwhile : Type 0 where
  pub after_start : Db
  pub before_flip : Db
  pub saved : AppResult (Unit {0})

-- No other request, and an update that succeeds.
abbrev pub quiet : Db → Meanwhile
quiet db = record { after_start = db; before_flip = db; saved = ok tt }

module _ (p : Platform) (c : Crypto) (agents : Agents) where
  open agents use {Machines, runs, start, stop_and_remove, is_running}

  abbrev pub no_container_name : AppError
  no_container_name = AppError.container_start_failed "run-mode deployment has no container_name"

  -- what `containers::start` is asked for
  unfoldable pub start_request :
      Db
      → App
      → RunConfig
      → (app_id deployment_id : String) → (install_timeout : ℕ) → AppResult StartRequest
  start_request db app config app_id deployment_id install_timeout = do
    deployment ← get_deployment p db app_id deployment_id
    name ← ok_or deployment.container_name no_container_name
    env_vars ← decrypt_env_vars c app.env_vars
    ok (record {
      deployment_id = deployment_id;
      container_name = name;
      run_config = config;
      env_vars = env_vars;
      install_timeout_secs = install_timeout;
    })

  abbrev pub container_of : AppResult Deployment → Option String
  container_of (err e) = none
  container_of (ok deployment) = deployment.container_name

  -- the container of the deployment that was active, if its id is not the text of the request
  unfoldable pub previous_container : Db → (app_id deployment_id : String) → Option String
  previous_container db app_id deployment_id = elim (active_deployment_id p db app_id) [
    | none ↦ none
    | some previous_id ↦
        if str_eq previous_id deployment_id
        then none
        else container_of (get_deployment p db app_id previous_id)
  ]

  -- A failure to stop it is only logged.
  unfoldable pub stop_previous : Machines → (host_id : ℕ) → Option String → Machines
  stop_previous m host_id none = m
  stop_previous m host_id (some name) = (stop_and_remove m host_id name false).0

  unfoldable pub flipped : Db → Machines → AppResult Db → Db × Machines × AppResult (Unit {0})
  flipped db m (err e) = (db, m, err e)
  flipped db m (ok db') = (db', m, ok tt)

  -- `storage::activate_deployment`
  unfoldable pub flip : Meanwhile → (now : ℤ) → (app_id deployment_id : String) → AppResult Db
  flip later now app_id deployment_id = do
    db' ← activate_deployment p later.before_flip now app_id deployment_id
    later.saved
    ok db'

  unfoldable pub started :
      Meanwhile
      → (host_id : ℕ) → (previous : Option String) → AppResult Db
      → Machines × AppResult (Unit {0})
      → Db × Machines × AppResult (Unit {0})
  unfolding flipped stop_previous
  started later host_id previous next (m, err e) = (later.after_start, m, err e)
  started later host_id previous next (m, ok _) =
      flipped later.before_flip (stop_previous m host_id previous) next

  unfoldable pub with_request :
      Db
      → Meanwhile
      → Machines
      → (host_id : ℕ) → (previous : Option String) → AppResult Db
      → AppResult StartRequest
      → Db × Machines × AppResult (Unit {0})
  unfolding started
  with_request db later m host_id previous next (err e) = (db, m, err e)
  with_request db later m host_id previous next (ok request) =
      started later host_id previous next (start m host_id request)

  unfoldable pub with_config :
      Db
      → Meanwhile
      → Machines
      → (now : ℤ) (install_timeout : ℕ) → (app_id deployment_id : String) → App
      → Option RunConfig
      → Db × Machines × AppResult (Unit {0})
  unfolding with_request start_request previous_container flipped flip
  with_config db later m now install_timeout app_id deployment_id app none =
      flipped later.before_flip m (flip later now app_id deployment_id)
  with_config db later m now install_timeout app_id deployment_id app (some config) =
      with_request db later m app.host_id
        (previous_container later.after_start app_id deployment_id)
        (flip later now app_id deployment_id)
        (start_request db app config app_id deployment_id install_timeout)

  -- The new container is started first; then the old one is stopped, and last the active id changed.
  -- What is returned is the database at the end of the call.
  unfoldable pub activate_with_containers :
      Db
      → Meanwhile
      → Machines
      → (now : ℤ) (install_timeout : ℕ) → (app_id deployment_id : String)
      → Db × Machines × AppResult (Unit {0})
  unfolding with_config
  activate_with_containers db later m now install_timeout app_id deployment_id =
      elim (get_app_by_id p db app_id) [
        | err e ↦ (db, m, err e)
        | ok app ↦
            with_config db later m now install_timeout app_id deployment_id app (run_config app)
      ]

  -- The loop of `delete_app_with_containers`, which the first failure ends.
  unfoldable pub stop_all :
      Machines → (host_id : ℕ) → List Deployment → Machines × AppResult (Unit {0})
  stop_all m host_id [] = (m, ok tt)
  stop_all m host_id (deployment ∷ deployments) = elim deployment.container_name [
    | none ↦ stop_all m host_id deployments
    | some name ↦
        let one = stop_and_remove m host_id name false in
        elim one.1 [ err e ↦ (one.0, err e) | ok _ ↦ stop_all one.0 host_id deployments ]
  ]

  unfoldable pub all_stopped :
      Store
      → (app_id : String) → Machines × AppResult (Unit {0})
      → Store × Machines × AppResult (Unit {0})
  all_stopped store app_id (m, err e) = (store, m, err e)
  all_stopped store app_id (m, ok _) =
      ((delete_app p store app_id).0, m, (delete_app p store app_id).1)

  abbrev pub app_and_deployments : Db → (app_id : String) → AppResult (App × List Deployment)
  app_and_deployments db app_id = do
    app ← get_app_by_id p db app_id
    deployments ← list_deployments p db app_id
    ok (app, deployments)

  unfoldable pub delete_app_with_containers :
      Store → Machines → (app_id : String) → Store × Machines × AppResult (Unit {0})
  unfolding stop_all all_stopped
  delete_app_with_containers store m app_id = elim (app_and_deployments store.db app_id) [
    | err e ↦ (store, m, err e)
    | ok (app, deployments) ↦ all_stopped store app_id (stop_all m app.host_id deployments)
  ]

  -- After the row: its container is stopped, then the agent removes its directory.
  unfoldable pub row_deleted :
      Machines
      → (delete_dir : Machines → AppResult (Unit {0})) → (host_id : ℕ) → Option String
      → Store × AppResult (Unit {0})
      → Store × Machines × AppResult (Unit {0})
  row_deleted m delete_dir host_id container (store, err e) = (store, m, err e)
  row_deleted m delete_dir host_id none (store, ok _) = (store, m, ok tt)
  row_deleted m delete_dir host_id (some name) (store, ok _) =
      let one = stop_and_remove m host_id name false in
      (store, one.0, elim one.1 [ err e ↦ err e | ok _ ↦ delete_dir one.0 ])

  unfoldable pub delete_deployment_with_containers :
      Store
      → Machines
      → (delete_dir : Machines → AppResult (Unit {0})) → (app_id deployment_id : String)
      → Store × Machines × AppResult (Unit {0})
  unfolding row_deleted
  delete_deployment_with_containers store m delete_dir app_id deployment_id =
      elim (get_app_by_id p store.db app_id) [
        | err e ↦ (store, m, err e)
        | ok app ↦
            row_deleted m delete_dir app.host_id
              (container_of (get_deployment p store.db app_id deployment_id))
              (Deployments.delete_deployment p store app_id deployment_id)
      ]

  unfoldable pub deployment_view :
      Machines → (active_id : Option String) → (host_id : ℕ) → Deployment → DeploymentView
  unfolding status_of
  deployment_view m active_id host_id deployment = record {
    deployment = deployment;
    is_active = same_id active_id deployment.id;
    container_status = elim deployment.container_name [
      | none ↦ none
      | some name ↦ some (status_of (is_running m host_id name))
    ];
  }

  abbrev views :
      Machines → (active_id : Option String) → (host_id : ℕ) → List Deployment → List DeploymentView
  views m active_id host_id [] = []
  views m active_id host_id (d ∷ deployments) =
      deployment_view m active_id host_id d ∷ views m active_id host_id deployments

  unfoldable pub list_deployment_views :
      Db → Machines → (app_id : String) → AppResult (List DeploymentView)
  unfolding deployment_view
  list_deployment_views db m app_id = do
    (app, deployments) ← app_and_deployments db app_id
    ok (views m (active_deployment_id p db app_id) app.host_id deployments)

  -- `stats` is the agent's answer to `containers::stats`.
  unfoldable pub deployment_stats :
      {Stats : Type 0}
      → Db
      → Machines
      → (stats : (host_id : ℕ) → (name : String) → AppResult Stats)
      → (app_id deployment_id : String) → AppResult (Option Stats)
  deployment_stats db m stats app_id deployment_id = do
    app ← get_app_by_id p db app_id
    deployment ← get_deployment p db app_id deployment_id
    elim deployment.container_name [
      | none ↦ ok none
      | some name ↦ do
        on ← is_running m app.host_id name
        (if on then (do answer ← stats app.host_id name; ok (some answer)) else ok none)
    ]
