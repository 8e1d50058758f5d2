-- ===== src/Reconcile/Running.antt =====
-- berth-hub/src/reconcile.rs: which containers run after the loop over the apps.
use oxde.Prelude.{
  ℕ, String, ◌≡◌, refl, ◌∙◌, inl, inr, true, false, ◌&&◌, ◌==◌, some, List, [], ◌∷◌, ◌++◌, str_eq,
  Option-cases, All,
}
use oxde.Prelude.Result.{ok, Result-cases}
use oxde.Models.{App, Deployment, RunConfig, run_config}
use oxde.Db.{Db}
use oxde.Secrets.{Crypto}
use oxde.Storage.Platform.{Platform}
use oxde.Storage.EnvVars.{decrypt_env_vars}
use oxde.Storage.Deployments.{get_deployment}
use oxde.Storage.Listing.{active_deployment_id}
use oxde.Containers.{Agents}
use oxde.Reconcile.{reconcile_run, reconcile_app, reconcile_apps}

-- The container of an app's active deployment.
pub record IsActiveContainer (p : Platform) (db : Db) (app : App) (name : String) : Type 0 where
  pub config : RunConfig
  pub id : String
  pub deployment : Deployment
  pub run_mode : run_config app ≡ some config
  pub active : active_deployment_id p db app.id ≡ some id
  pub found : get_deployment p db app.id id ≡ ok deployment
  pub named : deployment.container_name ≡ some name

module _ (p : Platform) (c : Crypto) (agents : Agents) where
  open agents use {Machines, runs, start, installer, runs-start_ok, runs-start}

  -- What reconciling this app does not touch.
  abbrev pub IsSpared : Db → (host_id : ℕ) → (other : String) → App → Type 0
  IsSpared db host_id other app =
      (name : String)
      → IsActiveContainer p db app name
      → ((app.host_id == host_id && str_eq name other) ≡ false)
        × ((app.host_id == host_id && str_eq (installer name) other) ≡ false)

  reconcile_app-runs :
      (db : Db) (m : Machines) (timeout : ℕ) (app : App) (name : String)
      → IsActiveContainer p db app name
      → (reconcile_app p c agents db m timeout app).1 ≡ ok tt
      → runs (reconcile_app p c agents db m timeout app).0 app.host_id name ≡ true
  unfolding reconcile_app reconcile_run
  reconcile_app-runs db m timeout app name a done =
      elim (Result-cases (decrypt_env_vars c app.env_vars)) [
        | inr (e, failed) ↦ absurd (
            let x =
              rw (a.run_mode, reconcile_app, reconcile_run, a.active, a.found, a.named, failed) at
                done in
            cc)
        | inl (env_vars, opened) ↦
            rw (a.run_mode, reconcile_app, reconcile_run, a.active, a.found, a.named, opened)
              (runs-start_ok m app.host_id _ (
                rw (a.run_mode, reconcile_app, reconcile_run, a.active, a.found, a.named, opened) at
                  done))
      ]

  reconcile_app-spares :
      (db : Db) (m : Machines) (timeout : ℕ) (host_id : ℕ) (other : String) (app : App)
      → IsSpared db host_id other app
      → runs (reconcile_app p c agents db m timeout app).0 host_id other ≡ runs m host_id other
  unfolding reconcile_app reconcile_run
  reconcile_app-spares db m timeout host_id other app spared =
      elim (Option-cases (run_config app)) [
        | inl e ↦ rw (e, reconcile_app) refl
        | inr (config, e) ↦ elim (Option-cases (active_deployment_id p db app.id)) [
          | inl e1 ↦ rw (e, reconcile_app, reconcile_run, e1) refl
          | inr (id, e1) ↦ elim (Result-cases (get_deployment p db app.id id)) [
            | inr (failure, e2) ↦ rw (e, reconcile_app, reconcile_run, e1, e2) refl
            | inl (deployment, e2) ↦ elim (Option-cases deployment.container_name) [
              | inl e3 ↦ rw (e, reconcile_app, reconcile_run, e1, e2, e3) refl
              | inr (name, e3) ↦ elim (Result-cases (decrypt_env_vars c app.env_vars)) [
                | inr (failure, e4) ↦ rw (e, reconcile_app, reconcile_run, e1, e2, e3, e4) refl
                | inl (env_vars, e4) ↦
                    let (apart, apart') = spared name (record {
                      config = config;
                      id = id;
                      deployment = deployment;
                      run_mode = e;
                      active = e1;
                      found = e2;
                      named = e3;
                    }) in
                    rw (e, reconcile_app, reconcile_run, e1, e2, e3, e4)
                      (runs-start m app.host_id _ host_id other apart apart')
              ]
            ]
          ]
        ]
      ]

  reconcile_apps-spares :
      (db : Db) (m : Machines) (timeout : ℕ) (host_id : ℕ) (other : String) (apps : List App)
      → All (IsSpared db host_id other) apps
      → runs (reconcile_apps p c agents db m timeout apps) host_id other ≡ runs m host_id other
  reconcile_apps-spares db m timeout host_id other [] spared = refl
  reconcile_apps-spares db m timeout host_id other (app ∷ apps) spared =
      reconcile_apps-spares db (reconcile_app p c agents db m timeout app).0 timeout host_id other
        apps (spared.1)
      ∙ reconcile_app-spares db m timeout host_id other app (spared.0)

  -- The loop over the apps leaves the active container of an app running if the start of that app
  -- succeeds, whatever happens to the apps before it, and if no later app has the same container on
  -- the same host, or one whose installation has that name.
  pub reconciled_app_runs :
      (db : Db) (m : Machines) (timeout : ℕ) (before : List App) (app : App) (after : List App)
      (name : String)
      → IsActiveContainer p db app name
      → (reconcile_app p c agents db (reconcile_apps p c agents db m timeout before) timeout app).1
        ≡ ok tt
      → All (IsSpared db app.host_id name) after
      → runs (reconcile_apps p c agents db m timeout (before ++ app ∷ after)) app.host_id name
        ≡ true
  reconciled_app_runs db m timeout [] app after name a done spared =
      reconcile_apps-spares db (reconcile_app p c agents db m timeout app).0 timeout app.host_id
        name after spared
      ∙ reconcile_app-runs db m timeout app name a done
  reconciled_app_runs db m timeout (b ∷ before) app after name a done spared =
      reconciled_app_runs db (reconcile_app p c agents db m timeout b).0 timeout before app after
        name a done spared
