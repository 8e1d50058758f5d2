-- ===== src/Serve/Active.antt =====
-- berth-hub/src/routes/apps.rs: only the active deployment of an app is served.
use oxde.Prelude.{String, ◌≡◌, refl, Bool, some, Option-cases, inl, inr, ◌⊎◌}
use oxde.Prelude.Result.{ok, Result-cases}
use oxde.Models.{App, Deployment}
use oxde.Models.Validate.{validate_slug}
use oxde.Db.{Db}
use oxde.Storage.Platform.{Platform}
use oxde.Storage.Apps.{get_app}
use oxde.Storage.Deployments.{get_deployment}
use oxde.Storage.Listing.{active_deployment_id}
use oxde.Serve.{ServeTarget, not_found, target_of, resolve_serve_target, serve}

-- The active deployment of the app with a name.
pub record IsActive (p : Platform) (db : Db) (app_name : String) (a : App) (id : String)
    (d : Deployment) : Type 0 where
  pub named : get_app p db app_name ≡ ok a
  pub active : active_deployment_id p db a.id ≡ some id
  pub found : get_deployment p db a.id id ≡ ok d

module _ (p : Platform) (db : Db) (files_dir_exists : (app_id deployment_id : String) → Bool)
    (app_name : String) where
  -- What serves an app is what the app's active deployment asks for, and there is one.
  pub serve-IsActive :
      (target : ServeTarget)
      → serve p db files_dir_exists app_name ≡ target
      → (target ≡ not_found)
        ⊎ ((a : App) × (id : String) × (d : Deployment) × IsActive p db app_name a id d
            × (validate_slug app_name ≡ ok tt)
            × (target ≡ target_of p db files_dir_exists a id d))
  unfolding serve resolve_serve_target
  serve-IsActive target served = elim (Result-cases (validate_slug app_name)) [
    | inr (e, bad) ↦ inl (rw (← served) (rw (bad, serve) refl))
    | inl (u, valid) ↦ elim (Result-cases (get_app p db app_name)) [
      | inr (e, missing) ↦
          inl (rw (← served) (rw (valid, serve, missing, resolve_serve_target) refl))
      | inl (a, named) ↦ elim (Option-cases (active_deployment_id p db a.id)) [
        | inl idle ↦ inl (rw (← served) (rw (valid, serve, named, resolve_serve_target, idle) refl))
        | inr (id, active) ↦ elim (Result-cases (get_deployment p db a.id id)) [
          | inr (e, missing) ↦
              inl (
                rw (← served)
                  (rw (valid, serve, named, resolve_serve_target, active, missing) refl))
          | inl (d, found) ↦ inr (
            a,
            id,
            d,
            record { named = named; active = active; found = found },
            valid,
            rw (← served) (rw (valid, serve, named, resolve_serve_target, active, found) refl),
          )
        ]
      ]
    ]
  ]
