-- ===== src/Storage/Deployments/Apps.antt =====
-- What creating and deleting an app by berth-hub/src/storage.rs does to the active ids.
use oxde.Prelude.{
  ℕ, ◌≡◌, ◌≢◌, sym, ap, ◌∙◌, inl, inr, not, ◌&&◌, none, some, List, [], ◌∷◌, ◌++◌, arith, ◌==◌,
  find, filter, Bool-cases, Option-cases,
}
use oxde.Prelude.Find.{
  some_inj, find-append_found, find-append_other, find-filter_kept, find-filter_gone,
  find-append_absent, find-none,
}
use oxde.Db
use oxde.Db.{Db}
use oxde.Storage.Rows.{app_with_id, deployment_of}
use oxde.Storage.Deployments.Rooted.{IsRooted, none-some}

module _ (db : Db) (sound : IsRooted db) where
  -- an app's row removed, with its deployments
  pub app_removed-IsRooted :
      (gone : ℕ) (permissions : List Db.AppPermission)
      → IsRooted (record db {
        deployments = filter (λ d. not (d.app_id == gone)) db.deployments;
        permissions = permissions;
        apps = filter (λ a. not (a.id == gone)) db.apps;
      })
  app_removed-IsRooted gone permissions = record {
    rooted = λ i active app found is_active.
        let (other, was) = app_was i app found in
        let (row, leads) = sound.rooted i active app was is_active in
        (row, deployment_kept i active other ∙ leads);
    owned = λ a b i r s er es.
        sound.owned a b i r s (deployment_was a i r er) (deployment_was b i s es);
  }
    where
      app_was :
          (i : ℕ) (app : Db.App)
          → find (λ a. a.id == i) (filter (λ a. not (a.id == gone)) db.apps) ≡ some app
          → (i ≢ gone) × (app_with_id db i ≡ some app)
      app_was i app e =
          let other : i ≢ gone = λ same. none-some (
            sym (
              find-filter_gone (λ a. a.id == i) (λ a. not (a.id == gone)) db.apps
                (λ a t. ground (arith, t, same)))
            ∙ e) in
          (
            other,
            sym (
                  find-filter_kept _ (λ a. not (a.id == gone)) db.apps
                    (λ a t. ground (arith, t, other)))
                ∙ e,
          )

      deployment_kept :
          (a i : ℕ)
          → a ≢ gone
          → find
              (λ d. d.id == i && d.app_id == a)
              (filter (λ d. not (d.app_id == gone)) db.deployments)
            ≡ deployment_of db a i
      deployment_kept a i other =
          find-filter_kept _ (λ d. not (d.app_id == gone)) db.deployments
            (λ d t. ground (arith, t, other))

      deployment_was :
          (a i : ℕ) (r : Db.Deployment)
          → find
              (λ d. d.id == i && d.app_id == a)
              (filter (λ d. not (d.app_id == gone)) db.deployments)
            ≡ some r
          → deployment_of db a i ≡ some r
      deployment_was a i r e = elim (Bool-cases (a == gone)) [
        | inl here ↦
            let absent =
              find-filter_gone (λ d. d.id == i && d.app_id == a) (λ d. not (d.app_id == gone))
                db.deployments (λ d t. ground (arith, t, here)) in
            absurd (none-some (sym absent ∙ e))
        | inr other ↦ sym (deployment_kept a i (λ same. ground (arith, other, same))) ∙ e
      ]

  -- a new app's row, which has no active id
  pub app_created-IsRooted :
      (row : Db.App) (permissions : List Db.AppPermission)
      → row.active_deployment_id ≡ none
      → IsRooted (record db { apps = db.apps ++ row ∷ []; permissions = permissions })
  app_created-IsRooted row permissions inactive = record {
    rooted = λ i active app found is_active. leads i active app found is_active;
    owned = sound.owned;
  }
    where
      leads :
          (i active : ℕ) (app : Db.App)
          → find (λ a. a.id == i) (db.apps ++ row ∷ []) ≡ some app
          → app.active_deployment_id ≡ some active
          → (r : Db.Deployment) × (deployment_of db i active ≡ some r)
      leads i active app e is_active = elim (Option-cases (app_with_id db i)) [
        | inr (a, found) ↦
            sound.rooted i active app (found ∙ sym (find-append_found _ db.apps row found) ∙ e)
              is_active
        | inl absent ↦ elim (Bool-cases (row.id == i)) [
          | inl here ↦
              let placed =
                find-append_absent (λ a. a.id == i) db.apps row (find-none _ db.apps absent) here in
              let same : row ≡ app = some_inj (sym placed ∙ e) in
              absurd (none-some (sym inactive ∙ ap (λ x. x.active_deployment_id) same ∙ is_active))
          | inr other ↦ absurd (
              none-some
                (sym absent ∙ sym (find-append_other (λ a. a.id == i) db.apps row other) ∙ e))
        ]
      ]
