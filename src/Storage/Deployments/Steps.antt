-- ===== src/Storage/Deployments/Steps.antt =====
-- Sequences of the operations of berth-hub/src/storage.rs, and the active deployments.
use oxde.Prelude.{ℕ, String, ◌≡◌, refl, Option, none, List}
use oxde.Prelude.Int.{ℤ}
use oxde.Prelude.Result.{ok}
use oxde.Error.{AppResult}
use oxde.Models.{App, AppSource, Deployment, DeploymentStatus, EnvVarInput, GitSource}
use oxde.Db.{Db}
use oxde.Secrets.{Crypto, Bytes}
use oxde.Storage.Platform.{Platform}
use oxde.Storage.Rows.{deployment_of, find_app_row_by_id}
use oxde.Storage.Apps.{Store, create_app, delete_app}
use oxde.Storage.Deployments.{
  create_pending_git_deployment, set_deployment_status, activate_deployment, delete_deployment,
}
use oxde.Storage.Deployments.Rooted.{IsRooted}
use oxde.Storage.Deployments.Active.{
  IsCanonical, activate-IsRooted, status-IsRooted, delete-IsRooted, delete_app-IsRooted,
  pending-IsRooted, create-IsRooted,
}

-- An operation on the store. The ids of new rows are no other deployment's, and a deployment to
-- delete is named by the canonical spelling of its id.
pub data StoreStep (p : Platform) (c : Crypto) : Store → Store → Type 0 where
  app_created :
      {store next : Store} {reply : AppResult App} (now : ℤ) (id first_grant : ℕ)
      (nonce : String → Bytes) (name : String) (source : AppSource) (inputs : List EnvVarInput)
      (creator : Option String) (host_id : ℕ)
      → create_app p c store now id first_grant nonce name source inputs creator host_id
        ≡ ok (next, reply)
      → StoreStep p c store next
  app_deleted :
      {store : Store} (app_id : String) → StoreStep p c store (delete_app p store app_id).0
  started :
      {store next : Store} {reply : AppResult (Deployment × GitSource)} (now : ℤ) (id : ℕ)
      (app_id : String)
      → ((a : ℕ) → deployment_of store.db a id ≡ none)
      → create_pending_git_deployment p store now id app_id ≡ ok (next, reply)
      → StoreStep p c store next
  status_set :
      {store : Store} {next : Db} (app_id deployment_id : String) (status : DeploymentStatus)
      → set_deployment_status p store.db app_id deployment_id status ≡ ok next
      → StoreStep p c store (record store { db = next })
  activated :
      {store : Store} {next : Db} (now : ℤ) (app_id deployment_id : String)
      → activate_deployment p store.db now app_id deployment_id ≡ ok next
      → StoreStep p c store (record store { db = next })
  deleted :
      {store : Store} (app_id deployment_id : String)
      → IsCanonical p deployment_id
      → StoreStep p c store (delete_deployment p store app_id deployment_id).0

pub data StoreSteps (p : Platform) (c : Crypto) : Store → Store → Type 0 where
  done : {store : Store} → StoreSteps p c store store
  next_step : {a b d : Store} → StoreStep p c a b → StoreSteps p c b d → StoreSteps p c a d

module _ (p : Platform) (c : Crypto) where
  step-IsRooted : (a b : Store) → StoreStep p c a b → IsRooted a.db → IsRooted b.db
  unfolding delete_app delete_deployment
  step-IsRooted a b
        (app_created {reply} now id first_grant nonce name source inputs creator host_id e) sound =
      create-IsRooted p c a b now id first_grant nonce name source inputs creator host_id reply e
        sound
  step-IsRooted a b (app_deleted app_id) sound =
      delete_app-IsRooted p a (find_app_row_by_id p a.db app_id) sound
  step-IsRooted a b (started {reply} now id app_id fresh e) sound =
      pending-IsRooted p a b now id app_id reply fresh e sound
  step-IsRooted a b (status_set {next} app_id deployment_id status e) sound =
      status-IsRooted p a.db next app_id deployment_id status e sound
  step-IsRooted a b (activated {next} now app_id deployment_id e) sound =
      activate-IsRooted p a.db next now app_id deployment_id e sound
  step-IsRooted a b (deleted app_id deployment_id canonical) sound =
      delete-IsRooted p a app_id deployment_id _ canonical refl sound

  -- From a store where every active id leads to a deployment of its app and the deployments with
  -- one id are one app's, every sequence of operations that create and delete apps, start, mark and
  -- activate deployments, and delete them by the canonical spelling of their ids, leads to such a
  -- store.
  pub active_deployment_exists : (a b : Store) → StoreSteps p c a b → IsRooted a.db → IsRooted b.db
  active_deployment_exists a b done sound = sound
  active_deployment_exists a b (next_step {b = m} step steps) sound =
      active_deployment_exists m b steps (step-IsRooted a m step sound)
