-- ===== src/Reconcile/Tests.antt =====
-- The agent of the shop's host connects.
use oxde.Prelude.{◌≡◌, refl, true, [], ◌∷◌}
use oxde.Prelude.Result.{ok}
use oxde.Fixtures.{platform, crypto}
use oxde.Fixtures.Shop.{db, runtime, machines, shop, deployment, cfg, first_found, is_active}
use oxde.Containers.Machines.{runs_on}
use oxde.Agent.Podman.{podman}
use oxde.Reconcile.{reconcile_app, reconcile_apps}
use oxde.Reconcile.Running.{reconciled_app_runs, IsActiveContainer}

active : IsActiveContainer platform db shop "c4"
unfolding oxde.Models.run_config
active = record {
  config = cfg;
  id = "aaaa";
  deployment = deployment "aaaa" "c4";
  run_mode = refl;
  active = is_active;
  found = first_found;
  named = refl;
}

reconciled :
    (reconcile_app platform crypto runtime db
      (reconcile_apps platform crypto runtime db (machines true) 60 [])
      60
      shop).1
    ≡ ok tt
unfolding reconcile_app oxde.Models.run_config oxde.Storage.Listing.active_deployment_id
    oxde.Storage.Rows.find_app_row_by_id oxde.Storage.Deployments.get_deployment
    oxde.Storage.Rows.find_deployment_row oxde.Storage.Rows.deployment_from_row
    oxde.Db.state_from_str oxde.Storage.EnvVars.decrypt_env_vars oxde.Containers.Machines.start_on
    oxde.Agent.Containers.start
reconciled = refl

reconciled_app_runs_example :
    runs_on podman
      (λ id. id)
      (reconcile_apps platform crypto runtime db (machines true) 60 (shop ∷ []))
      1
      "c4"
    ≡ true
reconciled_app_runs_example =
    reconciled_app_runs platform crypto runtime db (machines true) 60 [] shop [] "c4" active
      reconciled tt
