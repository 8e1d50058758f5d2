-- ===== src/Api/Serving.antt =====
-- berth-hub/src/routes/api.rs: which containers run after an activation or a deletion.
use oxde.Prelude.{
  ap, ◌⊎◌, Bool-cases, [], ◌∷◌, ℕ, String, ◌≡◌, refl, ◌∙◌, inl, inr, true, false, ◌&&◌, ◌==◌,
  ==_iff, Option, none, some, str_eq, Option-cases, arith,
}
use oxde.Prelude.Int.{ℤ}
use oxde.Prelude.Result.{ok, err, err_inj, Result-cases, >>=-eq-ok}
use oxde.Error.{AppError, AppResult}
use oxde.Models.{App, Deployment, RunConfig, run_config}
use oxde.Db.{Db}
use oxde.Secrets.{Crypto}
use oxde.Storage.Platform.{Platform}
use oxde.Storage.Rows.{find_app_row_by_id, find_deployment_row}
use oxde.Storage.Apps.{get_app_by_id}
use oxde.Storage.EnvVars.{decrypt_env_vars}
use oxde.Storage.Deployments.{get_deployment, activate_deployment}
use oxde.Containers.{Agents, StartRequest}
use mathlib.Core.List.{Memᴰ}
use oxde.Api.Lifecycle.{
  Meanwhile, quiet, flip, start_request, previous_container, stop_previous, flipped, started,
  with_request, with_config, activate_with_containers,
}

module _ (p : Platform) (c : Crypto) (agents : Agents) where
  open agents use {
    Machines, runs, start, stop_and_remove, installer, runs-start_ok, runs-start, runs-stop_ok,
    runs-stop,
  }

  -- A deployment that is found can be activated, if nothing changes in the meantime.
  pub flip-quiet :
      (db : Db) (now : ℤ) (app_id deployment_id : String) (deployment : Deployment)
      → get_deployment p db app_id deployment_id ≡ ok deployment
      → (db' : Db) × (flip p c agents (quiet db) now app_id deployment_id ≡ ok db')
  unfolding get_deployment activate_deployment flip
  flip-quiet db now app_id deployment_id deployment found =
      let (row, app_found, rest) = >>=-eq-ok (find_app_row_by_id p db app_id) _ found in
      let (d, there, read) = >>=-eq-ok (find_deployment_row p db row.id deployment_id) _ rest in
      rw (app_found, there) (_, refl)

  -- What a start request asks for.
  start_request-named :
      (db : Db) (app : App) (config : RunConfig) (app_id deployment_id : String) (timeout : ℕ)
      (deployment : Deployment) (name : String) {request : StartRequest}
      → get_deployment p db app_id deployment_id ≡ ok deployment
      → deployment.container_name ≡ some name
      → start_request p c agents db app config app_id deployment_id timeout ≡ ok request
      → request.container_name ≡ name
  unfolding start_request
  start_request-named db app config app_id deployment_id timeout deployment name found named made =
      elim (Result-cases (decrypt_env_vars c app.env_vars)) [
        | inl (env_vars, e) ↦ let x = rw (found, named, e) at made in ground arith
        | inr (failure, e) ↦ absurd (let x = rw (found, named, e) at made in cc)
      ]

  abbrev pub Result3 : Type 0
  Result3 = Db × Machines × AppResult (Unit {0})

  flipped-err :
      (db : Db) (m : Machines) (next : AppResult Db) {e : AppError}
      → (flipped p c agents db m next).2 ≡ err e
      → ((flipped p c agents db m next).0 ≡ db)
        × ((flipped p c agents db m next).1 ≡ m)
        × (next ≡ err e)
  unfolding flipped
  flipped-err db m (ok db') failed = cc
  flipped-err db m (err e) failed = (refl, refl, ap err (err_inj failed))

  -- Stopping the previous container leaves every other one.
  stop_previous-cases :
      (m : Machines) (host_id : ℕ) (previous : Option String) (other_host : ℕ) (other : String)
      → (runs (stop_previous p c agents m host_id previous) other_host other
          ≡ runs m other_host other)
        ⊎ ((name : String) × (previous ≡ some name)
            × ((host_id == other_host && str_eq name other) ≡ true))
  unfolding stop_previous
  stop_previous-cases m host_id none other_host other = inl refl
  stop_previous-cases m host_id (some name) other_host other =
      elim (Bool-cases (host_id == other_host && str_eq name other)) [
        | inl e ↦ inr (name, refl, e)
        | inr e ↦ inl (runs-stop m host_id name other_host other e)
      ]

  started-err :
      (later : Meanwhile) (host_id : ℕ) (previous : Option String) (next : AppResult Db)
      (after : Machines × AppResult (Unit {0})) (other_host : ℕ) (other : String) {e : AppError}
      → (started p c agents later host_id previous next after).2 ≡ err e
      → Memᴰ
          (started p c agents later host_id previous next after).0
          (later.after_start ∷ later.before_flip ∷ [])
        × ((runs (started p c agents later host_id previous next after).1 other_host other
              ≡ runs after.0 other_host other)
            ⊎ ((name : String) × (previous ≡ some name)
                × ((host_id == other_host && str_eq name other) ≡ true)
                × (next ≡ err e)))
  unfolding started
  started-err later host_id previous next (m, err e) other_host other failed =
      (Memᴰ.head refl, inl refl)
  started-err later host_id previous next (m, ok _) other_host other failed =
      let stopped = stop_previous p c agents m host_id previous in
      let (same_db, same, next_failed) = flipped-err later.before_flip stopped next failed in
      rw (same_db, same)
        (
          Memᴰ.tail (Memᴰ.head refl),
          elim (stop_previous-cases m host_id previous other_host other) [
            | inl kept ↦ inl kept
            | inr (name, is, hit) ↦ inr (name, is, hit, next_failed)
          ],
        )

  pub started-ok :
      (later : Meanwhile) (host_id : ℕ) (previous : Option String) (next : AppResult Db)
      (after : Machines × AppResult (Unit {0}))
      → (started p c agents later host_id previous next after).2 ≡ ok tt
      → (after.1 ≡ ok tt)
        × ((started p c agents later host_id previous next after).1
            ≡ stop_previous p c agents after.0 host_id previous)
  unfolding started flipped
  started-ok later host_id previous next (m, err e) done = cc
  started-ok later host_id previous (err e) (m, ok _) done = cc
  started-ok later host_id previous (ok db') (m, ok _) done = (refl, refl)

  module _ (db : Db) (later : Meanwhile) (m : Machines) (now : ℤ) (timeout : ℕ)
      (app_id deployment_id : String) (app : App) (deployment : Deployment) (name : String) where
    abbrev pub result : Result3
    result = activate_with_containers p c agents db later m now timeout app_id deployment_id

    abbrev pub next : AppResult Db
    next = flip p c agents later now app_id deployment_id

    abbrev pub previous_one : Option String
    previous_one = previous_container p c agents later.after_start app_id deployment_id

    static_result :
        get_app_by_id p db app_id ≡ ok app
        → run_config app ≡ none
        → result ≡ flipped p c agents later.before_flip m next
    unfolding activate_with_containers with_config
    static_result app_found static = rw (app_found, activate_with_containers, static) refl

    pub run_result :
        (config : RunConfig)
        → get_app_by_id p db app_id ≡ ok app
        → run_config app ≡ some config
        → result
          ≡ with_request p c agents db later m app.host_id previous_one next
              (start_request p c agents db app config app_id deployment_id timeout)
    unfolding activate_with_containers with_config
    run_result config app_found runs_it = rw (app_found, activate_with_containers, runs_it) refl

    -- The container of the deployment that was active before has been stopped for nothing.
    abbrev IsStoppedInVain : (host_id : ℕ) → (other : String) → AppError → Type 0
    IsStoppedInVain host_id other e =
        (previous : String) × (previous_one ≡ some previous)
        × ((app.host_id == host_id && str_eq previous other) ≡ true)
        × (next ≡ err e)

    failed_run :
        (host_id : ℕ) (other : String) (config : RunConfig) {e : AppError}
        → get_app_by_id p db app_id ≡ ok app
        → run_config app ≡ some config
        → get_deployment p db app_id deployment_id ≡ ok deployment
        → deployment.container_name ≡ some name
        → (app.host_id == host_id && str_eq name other) ≡ false
        → (app.host_id == host_id && str_eq (installer name) other) ≡ false
        → result.2 ≡ err e
        → Memᴰ result.0 (db ∷ later.after_start ∷ later.before_flip ∷ [])
          × ((runs result.1 host_id other ≡ runs m host_id other) ⊎ IsStoppedInVain host_id other e)
    unfolding with_request
    failed_run host_id other config app_found runs_it found named apart apart' failed =
        let same = run_result config app_found runs_it in
        elim (Result-cases (start_request p c agents db app config app_id deployment_id timeout)) [
          | inr (e, made) ↦ rw (same, made, with_request) (Memᴰ.head refl, inl refl)
          | inl (request, made) ↦
              let is_named : request.container_name ≡ name =
                start_request-named db app config app_id deployment_id timeout deployment name found
                  named made in
              let (held, kept) =
                started-err later app.host_id previous_one next (start m app.host_id request)
                  host_id other (rw (same, made, with_request) at failed) in
              let spared =
                runs-start m app.host_id request host_id other (rw is_named apart)
                  (rw is_named apart') in
              rw (same, made, with_request)
                (
                  Memᴰ.tail held,
                  elim kept [
                    | inl unstopped ↦ inl (unstopped ∙ spared)
                    | inr in_vain ↦ inr in_vain
                  ],
                )
        ]

    -- An activation that fails has not changed the database: it is one of those that the call
    -- found. Every container but the one it was to start and that of its installation is as before,
    -- with one exception: the container of the deployment that was active, after which the last
    -- step, the change of the active id, failed.
    pub failed_activation_keeps_others :
        (host_id : ℕ) (other : String) {e : AppError}
        → get_app_by_id p db app_id ≡ ok app
        → get_deployment p db app_id deployment_id ≡ ok deployment
        → deployment.container_name ≡ some name
        → (app.host_id == host_id && str_eq name other) ≡ false
        → (app.host_id == host_id && str_eq (installer name) other) ≡ false
        → result.2 ≡ err e
        → Memᴰ result.0 (db ∷ later.after_start ∷ later.before_flip ∷ [])
          × ((runs result.1 host_id other ≡ runs m host_id other)
              ⊎ ((previous : String) × (previous_one ≡ some previous)
                  × ((app.host_id == host_id && str_eq previous other) ≡ true)
                  × (next ≡ err e)))
    failed_activation_keeps_others host_id other app_found found named apart apart' failed =
        elim (Option-cases (run_config app)) [
          | inl static ↦
              let same = static_result app_found static in
              let kept = flipped-err later.before_flip m next (rw same at failed) in
              rw (same, kept.0, kept.1) (Memᴰ.tail (Memᴰ.tail (Memᴰ.head refl)), inl refl)
          | inr (config, runs_it) ↦
              failed_run host_id other config app_found runs_it found named apart apart' failed
        ]

    abbrev IsApart : Option String → Type 0
    IsApart none = Unit
    IsApart (some previous) = str_eq previous name ≡ false

    stop_previous-apart :
        (m' : Machines) (host_id : ℕ) (previous : Option String)
        → IsApart previous
        → runs m' host_id name ≡ true
        → runs (stop_previous p c agents m' host_id previous) host_id name ≡ true
    unfolding stop_previous
    stop_previous-apart m' host_id none apart on = on
    stop_previous-apart m' host_id (some previous) apart on =
        let same : (host_id == host_id) ≡ true = (==_iff host_id host_id).1 refl in
        runs-stop m' host_id previous host_id name (rw (same, apart) refl) ∙ on

    -- After an activation the container of the deployment runs, if the deployment that was active
    -- before under another id has another container.
    pub activated_runs :
        (config : RunConfig) (previous : Option String)
        → get_app_by_id p db app_id ≡ ok app
        → run_config app ≡ some config
        → get_deployment p db app_id deployment_id ≡ ok deployment
        → deployment.container_name ≡ some name
        → previous_container p c agents later.after_start app_id deployment_id ≡ previous
        → IsApart previous
        → result.2 ≡ ok tt
        → runs result.1 app.host_id name ≡ true
    unfolding activate_with_containers with_config with_request
    activated_runs config previous app_found runs_it found named before apart done =
        let same = run_result config app_found runs_it in
        elim (Result-cases (start_request p c agents db app config app_id deployment_id timeout)) [
          | inr (e, made) ↦ absurd (let x = rw (same, made, with_request) at done in cc)
          | inl (request, made) ↦
              let is_named : request.container_name ≡ name =
                start_request-named db app config app_id deployment_id timeout deployment name found
                  named made in
              let after =
                started-ok later app.host_id previous_one next (start m app.host_id request)
                  (rw (same, made, with_request) at done) in
              let began : runs (start m app.host_id request).0 app.host_id name ≡ true =
                rw (← is_named) (runs-start_ok m app.host_id request after.0) in
              rw (same, made, with_request, after.1, before)
                (stop_previous-apart (start m app.host_id request).0 app.host_id previous apart
                  began)
        ]
