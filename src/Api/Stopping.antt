-- ===== src/Api/Stopping.antt =====
-- berth-hub/src/routes/api.rs: the active deployment activated by another spelling of its id, and
-- the containers of an app that is deleted.
use oxde.Prelude.{ℕ, String, ◌≡◌, refl, false, Option, none, some, List, str_eq}
use oxde.Prelude.Int.{ℤ}
use oxde.Prelude.Result.{ok, err}
use oxde.Error.{AppResult}
use oxde.Models.{App, Deployment, RunConfig, run_config}
use oxde.Db
use oxde.Db.{Db}
use oxde.Secrets.{Crypto}
use oxde.Storage.Platform.{Platform}
use oxde.Storage.Apps.{get_app_by_id}
use oxde.Storage.Deployments.{get_deployment}
use oxde.Storage.Listing.{active_deployment_id}
use oxde.Containers.{Agents, StartRequest}
use oxde.Api.Serving.{flip-quiet, run_result}
use oxde.Api.Lifecycle.{
  Meanwhile, quiet, start_request, previous_container, stop_previous, flipped, started,
  with_request, activate_with_containers,
}

module _ (p : Platform) (c : Crypto) (agents : Agents) where
  open agents use {
    Machines, runs, start, stop_and_remove, installer, runs-start_ok, runs-start, runs-stop_ok,
    runs-stop,
  }

  started-went :
      (later : Meanwhile) (host_id : ℕ) (previous : Option String) (next : AppResult Db) (db' : Db)
      (after : Machines × AppResult (Unit {0}))
      → after.1 ≡ ok tt
      → next ≡ ok db'
      → started p c agents later host_id previous next after
        ≡ (db', stop_previous p c agents after.0 host_id previous, ok tt)
  unfolding started flipped
  started-went later host_id previous next db' (m, err e) done flips = absurd (cc)
  started-went later host_id previous next db' (m, ok _) done flips = rw flips refl

  previous_container-some :
      (db : Db) (app_id respelled : String) (deployment : Deployment) (name : String)
      → active_deployment_id p db app_id ≡ some deployment.id
      → str_eq deployment.id respelled ≡ false
      → get_deployment p db app_id deployment.id ≡ ok deployment
      → deployment.container_name ≡ some name
      → previous_container p c agents db app_id respelled ≡ some name
  unfolding previous_container
  previous_container-some db app_id respelled deployment name is_active other found named =
      rw (is_active, previous_container, other, found) named

  module _ (db : Db) (m : Machines) (now : ℤ) (timeout : ℕ) (app_id respelled : String) (app : App)
      (deployment : Deployment) (name : String) (config : RunConfig) (request : StartRequest) where
    -- The active deployment of a run-mode app, activated again by a text that is read as its id but
    -- is not how the id is printed, while nothing else changes: the call succeeds, and if the container could be stopped, the
    -- deployment that is active then does not run.
    pub reactivation_stops_itself :
        get_app_by_id p db app_id ≡ ok app
        → run_config app ≡ some config
        → active_deployment_id p db app_id ≡ some deployment.id
        → str_eq deployment.id respelled ≡ false
        → get_deployment p db app_id respelled ≡ ok deployment
        → get_deployment p db app_id deployment.id ≡ ok deployment
        → deployment.container_name ≡ some name
        → start_request p c agents db app config app_id respelled timeout ≡ ok request
        → (start m app.host_id request).1 ≡ ok tt
        → (stop_and_remove (start m app.host_id request).0 app.host_id name false).1 ≡ ok tt
        → ((activate_with_containers p c agents db (quiet db) m now timeout app_id respelled).2
            ≡ ok tt)
          × (runs
                (activate_with_containers p c agents db (quiet db) m now timeout app_id respelled).1
                app.host_id
                name
              ≡ false)
    unfolding with_request stop_previous
    reactivation_stops_itself app_found runs_it is_active other found found' named made began
          stopped =
        let before =
          previous_container-some db app_id respelled deployment name is_active other found'
            named in
        let same =
          run_result p c agents db (quiet db) m now timeout app_id respelled app deployment name
            config app_found runs_it in
        let (db', flips) = flip-quiet p c agents db now app_id respelled deployment found in
        let went =
          started-went (quiet db) app.host_id (some name) _ db' (start m app.host_id request) began
            flips in
        rw (same, made, with_request, before, went)
          (refl, runs-stop_ok (start m app.host_id request).0 app.host_id name stopped)

  abbrev pub IsStopped : Machines → (host_id : ℕ) → Deployment → Type 0
  IsStopped m host_id deployment = elim deployment.container_name [
    | none ↦ Unit
    | some name ↦ runs m host_id name ≡ false
  ]
