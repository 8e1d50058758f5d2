-- ===== src/Storage/Apps/Deleted.antt =====
-- berth-hub/src/storage.rs: what `delete_app` leaves of an app.
use oxde.Prelude.{
  ℕ, String, ◌≡◌, refl, inl, inr, Bool, false, not, ◌==◌, ==_iff, none, List, [], ◌∷◌, any, filter,
  find, Bool-cases,
}
use oxde.Prelude.Find.{find_sound, find-filter_gone}
use oxde.Prelude.Result.{ok, err, ok_or, ok_or-eq-ok, Result-cases, >>=-eq-ok}
use oxde.Error.{AppError}
use oxde.Db
use oxde.Db.{Db}
use oxde.Storage.Platform.{Platform}
use oxde.Storage.Rows.{app_with_id, find_app_row_by_id}
use oxde.Storage.Apps.{Store, get_app_by_id, delete_app, deleted_app, without_app, remove_app_dir}

rejected_absent :
    {A : Type 0} (q : A → Bool) (xs : List A) → any q (filter (λ x. not (q x)) xs) ≡ false
rejected_absent q [] = refl
rejected_absent q (x ∷ xs) = elim (Bool-cases (q x)) [
  | inl e ↦ rw e (rejected_absent q xs)
  | inr e ↦ rw (e, e) (rejected_absent q xs)
]

module _ (p : Platform) where
  -- The row that is found by a text has the number that the text is read as.
  row_read :
      (db : Db) (app_id : String) {row : Db.App}
      → find_app_row_by_id p db app_id ≡ ok row
      → (uuid : ℕ) × (ok_or (p.parse_str app_id) (AppError.app_not_found app_id) ≡ ok uuid)
        × (row.id ≡ uuid)
  unfolding find_app_row_by_id
  row_read db app_id {row = row} found =
      let (uuid, read, rest) =
        >>=-eq-ok (ok_or (p.parse_str app_id) (AppError.app_not_found app_id)) _ found in
      let held : app_with_id db uuid ≡ _ = ok_or-eq-ok (app_with_id db uuid) _ rest in
      (uuid, read, (==_iff row.id uuid).0 (find_sound (λ a. a.id == uuid) db.apps held))

  db_kept : (store : Store) (id : ℕ) → (remove_app_dir p store id).0.db ≡ store.db
  unfolding remove_app_dir
  db_kept store id = elim (Bool-cases (any (λ d. d == id) store.app_dirs)) [
    | inl e ↦ rw e refl
    | inr e ↦ rw e refl
  ]

  -- An app that has been deleted is not found, and no row of a deployment is left for it.
  pub delete_app-gone :
      (store : Store) (app_id : String)
      → (delete_app p store app_id).1 ≡ ok tt
      → (get_app_by_id p (delete_app p store app_id).0.db app_id
          ≡ err (AppError.app_not_found app_id))
        × (row : Db.App) × (find_app_row_by_id p store.db app_id ≡ ok row)
        × (any (λ d. d.app_id == row.id) (delete_app p store app_id).0.db.deployments ≡ false)
  unfolding delete_app deleted_app get_app_by_id find_app_row_by_id without_app
  delete_app-gone store app_id done = elim (Result-cases (find_app_row_by_id p store.db app_id)) [
    | inr (e, missing) ↦ absurd (let x = rw (missing, deleted_app) at done in cc)
    | inl (row, found) ↦
        let (uuid, read, same) = row_read store.db app_id found in
        let kept = db_kept (without_app p store row.id) row.id in
        let gone : find (λ a. a.id == uuid) (filter (λ a. not (a.id == row.id)) store.db.apps)
            ≡ none =
          find-filter_gone (λ a. a.id == uuid) (λ a. not (a.id == row.id)) store.db.apps
            (λ a here. rw same (rw here refl)) in
        (
          rw (found, deleted_app, kept, read, gone) refl,
          row,
          found,
          rw (found, deleted_app, kept)
              (rejected_absent (λ d. d.app_id == row.id) store.db.deployments),
        )
  ]
