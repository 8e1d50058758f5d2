-- ===== src/Storage/Deployments/Tests.antt =====
-- The deployments of berth-hub/src/storage.rs on a store of one app with two deployments.
use oxde.Prelude.{
  ℕ, ◌≡◌, refl, sym, ap, ◌∙◌, inl, inr, Option, none, some, [], ◌∷◌, ◌==◌, ==_iff, eq_iff,
  Bool-cases,
}
use oxde.Prelude.Find.{some_inj}
use oxde.Prelude.Int.{ℤ, pos}
use oxde.Prelude.Result.{ok, err}
use oxde.Error.{AppError}
use oxde.Models.{upload}
use oxde.Db
use oxde.Db.{Db, encoded}
use oxde.Storage.Rows.{app_with_id, deployment_of, find_app_row_by_id, find_deployment_row}
use oxde.Storage.Apps.{Store}
use oxde.Storage.Deployments.{activate_deployment, delete_deployment}
use oxde.Storage.Deployments.Rooted.{IsRooted, none-some}
use oxde.Storage.Deployments.Active.{IsCanonical}
use oxde.Storage.Deployments.Steps.{activated, deleted, done, next_step, active_deployment_exists}
use oxde.Storage.Deployments.Spelling.{delete_active_respelled}
use oxde.Fixtures.{platform, crypto, spelled, empty_db}

abbrev shop : Option ℕ → ℤ → Db.App
shop active updated_at = record {
  id = 3;
  name = "shop";
  source_json = encoded upload;
  env_vars_json = encoded [];
  active_deployment_id = active;
  host_id = 1;
  created_at = pos 1;
  updated_at = updated_at;
}

abbrev deployment : ℕ → Db.Deployment
deployment id = record {
  id = id;
  app_id = 3;
  created_at = pos 2;
  original_filename = none;
  upload_size_bytes = pos 10;
  git_info_json = none;
  build_info_json = none;
  container_name = none;
  status = "ready";
  failure_error = none;
}

abbrev store : Store
store = record {
  db = record empty_db {
    apps = shop (some 4) (pos 1) ∷ [];
    deployments = deployment 4 ∷ deployment 5 ∷ [];
  };
  app_dirs = 3 ∷ [];
  deployment_dirs =
      record { app_id = 3; name = "aaaa" } ∷ record { app_id = 3; name = "aaaaa" } ∷ [];
}

shop_only :
    (id : ℕ) (app : Db.App)
    → app_with_id store.db id ≡ some app
    → (3 ≡ id) × (shop (some 4) (pos 1) ≡ app)
shop_only id app e = elim (Bool-cases (3 == id)) [
  | inl here ↦ ((==_iff 3 id).0 here, some_inj (rw here at e))
  | inr other ↦ absurd (none-some (rw other at e))
]

in_shop : (a id : ℕ) (r : Db.Deployment) → deployment_of store.db a id ≡ some r → 3 ≡ a
in_shop a id r e = elim (Bool-cases (3 == a)) [
  | inl here ↦ (==_iff 3 a).0 here
  | inr other ↦ elim (Bool-cases (4 == id)) [
    | inl first ↦ elim (Bool-cases (5 == id)) [
      | inl second ↦ absurd (none-some (rw (first, second, other) at e))
      | inr no_second ↦ absurd (none-some (rw (first, no_second, other) at e))
    ]
    | inr no_first ↦ elim (Bool-cases (5 == id)) [
      | inl second ↦ absurd (none-some (rw (no_first, second, other) at e))
      | inr no_second ↦ absurd (none-some (rw (no_first, no_second) at e))
    ]
  ]
]

store-IsRooted : IsRooted store.db
store-IsRooted = record {
  rooted = λ id active app found is_active.
      let (here, same) = shop_only id app found in
      let first : 4 ≡ active = some_inj (ap (λ x. x.active_deployment_id) same ∙ is_active) in
      (deployment 4, rw (← here, ← first) refl);
  owned = λ a b id r s er es. sym (in_shop a id r er) ∙ in_shop b id s es;
}

abbrev switched : Db
switched = record store.db { apps = shop (some 5) (pos 9) ∷ [] }

activated_second : activate_deployment platform store.db (pos 9) "aaa" "aaaaa" ≡ ok switched
unfolding activate_deployment find_app_row_by_id find_deployment_row
activated_second = refl

first-IsCanonical : IsCanonical platform "aaaa"
first-IsCanonical id e = ap spelled (sym (some_inj e))

active_deployment_exists_example :
    IsRooted (delete_deployment platform (record store { db = switched }) "aaa" "aaaa").0.db
active_deployment_exists_example =
    active_deployment_exists platform crypto store
      (delete_deployment platform (record store { db = switched }) "aaa" "aaaa").0
      (next_step (activated (pos 9) "aaa" "aaaaa" activated_second)
        (next_step (deleted "aaa" "aaaa" first-IsCanonical) done))
      store-IsRooted

shop_found : find_app_row_by_id platform store.db "aaa" ≡ ok (shop (some 4) (pos 1))
unfolding find_app_row_by_id
shop_found = refl

respelled_found : find_deployment_row platform store.db 3 "AAAA" ≡ ok (deployment 4)
unfolding find_deployment_row
respelled_found = refl

delete_active_respelled_example :
    ((delete_deployment platform store "aaa" "AAAA").1 ≡ err (AppError.deployment_not_found "AAAA"))
    × (find_app_row_by_id platform (delete_deployment platform store "aaa" "AAAA").0.db "aaa"
        ≡ ok (shop (some 4) (pos 1)))
    × (deployment_of (delete_deployment platform store "aaa" "AAAA").0.db 3 4 ≡ none)
delete_active_respelled_example =
    delete_active_respelled platform store "aaa" "AAAA" (shop (some 4) (pos 1)) (deployment 4)
      shop_found refl respelled_found (λ same. let e = (eq_iff "aaaa" "AAAA").1 same in cc) refl
