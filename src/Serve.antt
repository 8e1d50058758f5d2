-- ===== src/Serve.antt =====
-- berth-hub/src/routes/apps.rs and berth-hub/src/routes/host_routing.rs: where a request to a host
-- goes, and what serves an app.
pub mod Active
use oxde.Prelude.{ℕ, String, Bool, true, false, Option, none, some, Map, if◌then◌else◌}
use oxde.Prelude.Result.{Result, ok, err}
use oxde.Http.{HeaderMap, header_text}
use oxde.Models.{App, Deployment, RunConfig, run_config, ModelError}
use oxde.Models.Validate.{validate_slug}
use oxde.Db.{Db}
use oxde.Routing.{Lowercase, HostMatch, control_plane, app, unrecognized, classify_host}
use oxde.Storage.Platform.{Platform}
use oxde.Storage.Apps.{get_app}
use oxde.Storage.Deployments.{get_deployment}
use oxde.Storage.Listing.{active_deployment_id}

pub data ServeTarget : Type 0 where
  not_found : ServeTarget
  static : (app_id deployment_id : String) → ServeTarget
  run : (container_name : String) → RunConfig → (host_id : ℕ) → ServeTarget

module _ (p : Platform) (db : Db) (files_dir_exists : (app_id deployment_id : String) → Bool) where
  -- what serves a deployment of an app
  unfoldable pub target_of : App → (deployment_id : String) → Deployment → ServeTarget
  target_of a deployment_id deployment = elim deployment.container_name [
    | some container_name ↦ elim (run_config a) [
      | none ↦ not_found
      | some config ↦ run container_name config a.host_id
    ]
    | none ↦ if files_dir_exists a.id deployment_id then static a.id deployment_id else not_found
  ]

  unfoldable pub resolve_serve_target : (app_name : String) → ServeTarget
  unfolding target_of
  resolve_serve_target app_name = elim (get_app p db app_name) [
    | err e ↦ not_found
    | ok a ↦ elim (active_deployment_id p db a.id) [
      | none ↦ not_found
      | some deployment_id ↦ elim (get_deployment p db a.id deployment_id) [
        | err e ↦ not_found
        | ok deployment ↦ target_of a deployment_id deployment
      ]
    ]
  ]

  unfoldable pub serve : (app_name : String) → ServeTarget
  unfolding resolve_serve_target
  serve app_name = elim (validate_slug app_name) [
    | err e ↦ not_found
    | ok _ ↦ resolve_serve_target app_name
  ]

  -- HTTP/2 carries the host in the URI's authority.
  unfoldable pub resolve_host : HeaderMap → (authority : Option String) → Option String
  resolve_host headers authority = elim (header_text headers "host") [
    | some host ↦ some host
    | none ↦ authority
  ]

  -- Where a request goes: to the dashboard and the API, to an app, or nowhere.
  pub data Dispatch : Type 0 where
    next : Dispatch
    served : ServeTarget → Dispatch
    rejected : Dispatch

  unfoldable pub dispatch_by_host :
      Lowercase → (base_domain : String) → HeaderMap → (authority : Option String) → Dispatch
  unfolding resolve_host serve
  dispatch_by_host l base_domain headers authority = elim (resolve_host headers authority) [
    | none ↦ rejected
    | some host ↦ elim (classify_host l host base_domain) [
      | control_plane ↦ next
      | app label ↦ served (serve label)
      | unrecognized ↦ rejected
    ]
  ]
