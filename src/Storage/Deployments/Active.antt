-- ===== src/Storage/Deployments/Active.antt =====
-- The operations of berth-hub/src/storage.rs, one by one, and the active deployments.
use mathlib.Core.Path.{subst}
use oxde.Prelude.{
  ℕ, inl, inr, Bool-cases, String, ◌≡◌, refl, sym, ap, ◌∙◌, true, not, ◌&&◌, Option, none, some,
  List, [], arith, ◌==◌, str_eq, eq_iff, any,
}
use oxde.Prelude.Find.{some_inj}
use oxde.Prelude.Int.{ℤ}
use oxde.Prelude.Result.{ok, err, map_err, >>=-eq-ok, >>-eq-ok, ensure-eq-ok, ok_inj}
use oxde.Error.{AppResult}
use oxde.Models.{App, AppSource, Deployment, DeploymentStatus, EnvVarInput, GitSource}
use oxde.Models.Validate.{validate_slug, validate_env_var_inputs}
use oxde.Db
use oxde.Db.{Db}
use oxde.Db.Query.{decode}
use oxde.Secrets.{Crypto, Bytes}
use oxde.Storage.Platform.{Platform}
use oxde.Storage.Rows.{app_with_id, deployment_of, find_app_row_by_id, find_deployment_row}
use oxde.Storage.EnvVars.{resolve_env_var_inputs}
use oxde.Storage.Apps.{
  Store, create_app, remove_app_dir, without_app, validate_source, validate_host_id, app_error,
  deleted_app, creator_id,
}
use oxde.Storage.Deployments.{
  create_pending_git_deployment, set_deployment_status, activate_deployment, delete_deployment_row,
  remove_deployment_dir, names_active, after_row, git_of,
}
use oxde.Storage.Deployments.Rooted.{
  IsRooted, app_row_found, deployment_row_found, updated-IsRooted, appended-IsRooted,
  removed-IsRooted, activated-IsRooted,
}
use oxde.Storage.Deployments.Apps.{app_removed-IsRooted, app_created-IsRooted}

-- A spelling of a deployment's id, if it is one, is the canonical spelling.
abbrev pub IsCanonical : Platform → String → Type 0
IsCanonical p deployment_id =
    (id : ℕ) → p.parse_str deployment_id ≡ some id → p.uuid_string id ≡ deployment_id

module _ (p : Platform) where
  -- Activation makes the deployment that its id names, one of the app's, the active one.
  pub activate-IsRooted :
      (db next : Db) (now : ℤ) (app_id deployment_id : String)
      → activate_deployment p db now app_id deployment_id ≡ ok next
      → IsRooted db
      → IsRooted next
  unfolding activate_deployment
  activate-IsRooted db next now app_id deployment_id e sound =
      let (app, a, e1) = >>=-eq-ok (find_app_row_by_id p db app_id) _ e in
      let (row, d, e2) = >>=-eq-ok (find_deployment_row p db app.id deployment_id) _ e1 in
      subst IsRooted (ok_inj e2) (
        activated-IsRooted db sound app.id row.id _ row
          (deployment_row_found p db app.id deployment_id row d).1 (λ _. refl) (λ _. refl))

  pub status-IsRooted :
      (db next : Db) (app_id deployment_id : String) (status : DeploymentStatus)
      → set_deployment_status p db app_id deployment_id status ≡ ok next
      → IsRooted db
      → IsRooted next
  unfolding set_deployment_status
  status-IsRooted db next app_id deployment_id status e sound =
      let (app, a, e1) = >>=-eq-ok (find_app_row_by_id p db app_id) _ e in
      let (row, d, e2) = >>=-eq-ok (find_deployment_row p db app.id deployment_id) _ e1 in
      subst IsRooted (ok_inj e2)
        (updated-IsRooted db sound (λ x. x.id == row.id) _ (λ _. refl) (λ _. refl))

  delete_row-IsRooted :
      (db next : Db) (id : ℕ) (app_id deployment_id : String)
      → IsCanonical p deployment_id
      → delete_deployment_row p db app_id deployment_id ≡ ok (next, id)
      → IsRooted db
      → IsRooted next
  unfolding delete_deployment_row names_active
  delete_row-IsRooted db next id app_id deployment_id canonical e sound =
      let (app, a, e1) = >>=-eq-ok (find_app_row_by_id p db app_id) _ e in
      let (allowed, e2) = ensure-eq-ok _ _ _ e1 in
      let (row, d, e3) = >>=-eq-ok (find_deployment_row p db app.id deployment_id) _ e2 in
      let (parsed, found) = deployment_row_found p db app.id deployment_id row d in
      subst IsRooted (ap (λ x. x.0) (ok_inj e3)) (
        removed-IsRooted db sound row.id (λ i other at_i is_active.
          let (r, there) = sound.rooted i row.id other at_i is_active in
          let same : i ≡ app.id = sound.owned i app.id row.id r row there found in
          let one : other ≡ app =
            some_inj (sym at_i ∙ ap (app_with_id db) same ∙ app_row_found p db app_id app a) in
          refused app.active_deployment_id row.id
            (sym (ap (λ x. x.active_deployment_id) one) ∙ is_active) (canonical row.id parsed)
            allowed))
    where
      refused :
          (o : Option ℕ) (d : ℕ)
          → o ≡ some d
          → p.uuid_string d ≡ deployment_id
          → not (names_active p o deployment_id) ≡ true
          → ⊥
      refused none d e spelled allowed = cc
      refused (some x) d e spelled allowed =
          let same : x ≡ d = some_inj e in
          let text : p.uuid_string x ≡ deployment_id = ap p.uuid_string same ∙ spelled in
          ground (arith, allowed, text, eq_iff (p.uuid_string x) deployment_id)

  pub delete-IsRooted :
      (store : Store) (app_id deployment_id : String) (o : AppResult (Db × ℕ))
      → IsCanonical p deployment_id
      → delete_deployment_row p store.db app_id deployment_id ≡ o
      → IsRooted store.db
      → IsRooted (after_row p store deployment_id o).0.db
  unfolding after_row remove_deployment_dir
  delete-IsRooted store app_id deployment_id (err e) canonical row sound = sound
  delete-IsRooted store app_id deployment_id (ok (next, id)) canonical row sound =
      let deleted = delete_row-IsRooted store.db next id app_id deployment_id canonical row sound in
      elim (Bool-cases
        (any (λ d. d.app_id == id && str_eq d.name deployment_id) store.deployment_dirs)) [
          | inl there ↦ rw there deleted
          | inr missing ↦ rw missing deleted
        ]

  pub delete_app-IsRooted :
      (store : Store) (o : AppResult Db.App)
      → IsRooted store.db
      → IsRooted (deleted_app p store o).0.db
  unfolding deleted_app remove_app_dir without_app
  delete_app-IsRooted store (err e) sound = sound
  delete_app-IsRooted store (ok row) sound =
      let removed = app_removed-IsRooted store.db sound row.id _ in
      elim (Bool-cases (any (λ d. d == row.id) store.app_dirs)) [
        | inl there ↦ rw there removed
        | inr missing ↦ rw missing removed
      ]

  pub pending-IsRooted :
      (store next : Store) (now : ℤ) (id : ℕ) (app_id : String)
      (reply : AppResult (Deployment × GitSource))
      → ((a : ℕ) → deployment_of store.db a id ≡ none)
      → create_pending_git_deployment p store now id app_id ≡ ok (next, reply)
      → IsRooted store.db
      → IsRooted next.db
  unfolding create_pending_git_deployment
  pending-IsRooted store next now id app_id reply fresh e sound =
      let (app, _, e1) = >>=-eq-ok (find_app_row_by_id p store.db app_id) _ e in
      let (source, _, e2) = >>=-eq-ok (decode app.source_json) _ e1 in
      let (git_source, _, e3) = >>=-eq-ok (git_of app.name source) _ e2 in
      let (_, e4) = ensure-eq-ok _ _ _ e3 in
      subst IsRooted (ap (λ x. x.0.db) (ok_inj e4)) (appended-IsRooted store.db sound _ fresh)

  pub create-IsRooted :
      (c : Crypto) (store next : Store) (now : ℤ) (id first_grant : ℕ) (nonce : String → Bytes)
      (name : String) (source : AppSource) (inputs : List EnvVarInput) (creator : Option String)
      (host_id : ℕ) (reply : AppResult App)
      → create_app p c store now id first_grant nonce name source inputs creator host_id
        ≡ ok (next, reply)
      → IsRooted store.db
      → IsRooted next.db
  unfolding create_app
  create-IsRooted c store next now id first_grant nonce name source inputs creator host_id reply e
        sound =
      let (_, e1) = >>-eq-ok (map_err app_error (validate_slug name)) _ e in
      let (_, e2) = >>-eq-ok (map_err app_error (validate_env_var_inputs inputs)) _ e1 in
      let (env_vars, _, e3) = >>=-eq-ok (resolve_env_var_inputs c nonce inputs []) _ e2 in
      let (_, e4) = >>-eq-ok (validate_source source) _ e3 in
      let (_, e5) = ensure-eq-ok _ _ _ e4 in
      let (_, e6) = >>-eq-ok (validate_host_id store.db host_id) _ e5 in
      let (user_id, _, e7) = >>=-eq-ok (creator_id store.db creator) _ e6 in
      subst IsRooted (ap (λ x. x.0.db) (ok_inj e7)) (app_created-IsRooted store.db sound _ _ refl)
