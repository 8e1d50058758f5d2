-- ===== src/Api/LogRoute.antt =====
-- berth-hub/src/routes/api.rs: the logs of a deployment, from its files and from its pump.
use oxde.Prelude.{
  String, Bool, false, ◌&&◌, Option, none, some, List, [], ◌∷◌, if◌then◌else◌, str_eq,
}
use oxde.Prelude.Result.{ok, ◌>>=◌, ok_or}
use oxde.Error.{AppError, AppResult}
use oxde.Db.{Db}
use oxde.Storage.Platform.{Platform}
use oxde.Storage.Apps.{get_app_by_id}
use oxde.Storage.Deployments.{get_deployment}
use oxde.Logs.{
  LogKind, file_name, Content, Files, LogRegistry, active, read_backlog, resolve_terminal_phase,
  Recv, live_tail,
}

-- `serde`'s names of the phases differ as the files' names do.
abbrev pub same_kind : LogKind → LogKind → Bool
same_kind a b = str_eq (file_name a) (file_name b)

abbrev pub phase_of :
    (asked : Option LogKind)
    → (pumping : Option LogKind) → Files
    → (id : String) → AppResult LogKind
phase_of (some kind) pumping files id = ok kind
phase_of none (some kind) files id = ok kind
phase_of none none files id = ok_or (resolve_terminal_phase files) (AppError.no_container id)

abbrev pub is_live : (pumping : Option LogKind) → LogKind → (follow : Bool) → Bool
is_live none kind follow = false
is_live (some pumped) kind follow = same_kind pumped kind && follow

pub record LogBody : Type 0 where
  pub event_stream : Bool
  pub backlog : Content
  pub live : Bool

-- `files` gives the directory of each deployment, by the texts of the ids.
unfoldable pub deployment_logs :
    Platform
    → Db
    → LogRegistry
    → (files : (app_id deployment_id : String) → Files) → (readable : String → Bool)
    → (app_id id : String) → (phase : Option LogKind) (follow : Bool) → AppResult LogBody
unfolding active
deployment_logs p db registry files readable app_id id phase follow = do
  found ← get_deployment p db app_id id
  app ← get_app_by_id p db app_id
  kind ← phase_of phase (active registry id) (files app.id id) id
  backlog ← read_backlog (files app.id id) kind readable
  ok (record {
    event_stream = follow;
    backlog = backlog;
    live = is_live (active registry id) kind follow;
  })

-- the bytes of the answer, given what the subscription receives
abbrev pub sent : LogBody → List Recv → List Content
sent body received = if body.live then body.backlog ∷ live_tail received else body.backlog ∷ []
