-- ===== src/Api/Tests.antt =====
-- The API on a store of one run-mode app with two deployments, of which the first is active.
use mathlib.Core.List.{Memᴰ}
use oxde.Storage.Rows.{find_app_row_by_id}
use oxde.Prelude.{
  none, ◌⊎◌, ◌&&◌, str_eq, ◌==◌, ◌≤◌, String, ◌≡◌, refl, true, false, some, List, [], ◌∷◌,
  string_key, length,
}
use oxde.Prelude.Int.{pos}
use oxde.Prelude.Result.{ok, err}
use oxde.Error.{AppError}
use oxde.Models.{
  EnvVar, EnvVarValue, RunConfig, node24, GitSource, AppSource, GitDeployMode, Deployment,
}
use oxde.Models
use oxde.Db
use oxde.Db.{Db, encoded}
use oxde.Fixtures.{platform, crypto}
use oxde.Storage.Apps.{Store, get_app_by_id}
use oxde.Storage.Deployments.{get_deployment, activate_deployment}
use oxde.Storage.Listing.{active_deployment_id}
use oxde.Containers.{Agents, StartRequest}
use oxde.Containers.Machines.{runs_on, start_on, stop_on}
use oxde.Agent.Podman.{podman}
use oxde.Api.{app_view, list_apps}
use oxde.Api.Lifecycle.{
  Meanwhile, quiet, flip, activate_with_containers, start_request, previous_container,
}
use oxde.Api.Serving.{failed_activation_keeps_others, activated_runs}
use oxde.Api.Stopping.{reactivation_stops_itself}
use oxde.Api.Views.{app_view_hides_secrets}
use oxde.Api.Upload.{
  Field, chunk, stream_upload_to_disk, upload_writes_field, upload_never_exceeds, bytes_read,
}
use oxde.Fixtures.Shop.{
  cfg, db, runtime, machines, shop, deployment, shop_found, first_found, first_respelled,
  second_found, is_active,
}

active_container : previous_container platform crypto runtime db "aaa" "aaaaa" ≡ some "c4"
unfolding previous_container active_deployment_id get_deployment
    oxde.Storage.Rows.find_app_row_by_id oxde.Storage.Rows.find_deployment_row
    oxde.Storage.Rows.deployment_from_row Db.state_from_str
active_container = refl

failed_start :
    (activate_with_containers platform crypto runtime db
      (quiet db)
      (machines false)
      (pos 9)
      60
      "aaa"
      "aaaaa").2
    ≡ err AppError.agent_unavailable
unfolding activate_with_containers flip get_app_by_id oxde.Storage.Rows.find_app_row_by_id
    oxde.Storage.Rows.app_from_row_with_permissions oxde.Storage.Rows.load_permissions
    oxde.Storage.Rows.app_from_row Models.run_config get_deployment
    oxde.Storage.Rows.find_deployment_row oxde.Storage.Rows.deployment_from_row Db.state_from_str
    oxde.Storage.EnvVars.decrypt_env_vars start_on oxde.Agent.Containers.start
    oxde.Agent.Containers.start_fresh oxde.Agent.Containers.and_then
    oxde.Agent.Containers.create_and_start oxde.Agent.Containers.install
    oxde.Agent.Containers.container_exists oxde.Agent.Containers.ensure_image
    oxde.Agent.Containers.env_strings oxde.Agent.Containers.is_running
    oxde.Agent.Handlers.final_result oxde.Agent.Handlers.start_run_container
    oxde.Agent.Handlers.stream_command oxde.Api.Lifecycle.flipped previous_container start_request
    oxde.Api.Lifecycle.started oxde.Api.Lifecycle.stop_previous oxde.Api.Lifecycle.with_config
    oxde.Api.Lifecycle.with_request oxde.Containers.command_result_to_app_result
    oxde.Containers.drain_command_output Models.image_tag activate_deployment active_deployment_id
    oxde.Agent.Containers.lifted
failed_start = refl

-- The update of the app's row fails.
abbrev unsaved : Meanwhile
unsaved = record (quiet db) { saved = err (AppError.io "disk full") }

failed_activation :
    (activate_with_containers platform crypto runtime db unsaved
      (machines true)
      (pos 9)
      60
      "aaa"
      "aaaaa").2
    ≡ err (AppError.io "disk full")
unfolding activate_with_containers flip get_app_by_id oxde.Storage.Rows.find_app_row_by_id
    oxde.Storage.Rows.app_from_row_with_permissions oxde.Storage.Rows.load_permissions
    oxde.Storage.Rows.app_from_row Models.run_config get_deployment
    oxde.Storage.Rows.find_deployment_row oxde.Storage.Rows.deployment_from_row Db.state_from_str
    oxde.Storage.EnvVars.decrypt_env_vars start_on oxde.Agent.Containers.start
    oxde.Agent.Containers.start_fresh oxde.Agent.Containers.and_then
    oxde.Agent.Containers.create_and_start oxde.Agent.Containers.install
    oxde.Agent.Containers.container_exists oxde.Agent.Containers.ensure_image
    oxde.Agent.Containers.env_strings oxde.Agent.Containers.is_running
    oxde.Agent.Handlers.final_result oxde.Agent.Handlers.start_run_container
    oxde.Agent.Handlers.stream_command oxde.Api.Lifecycle.flipped previous_container start_request
    oxde.Api.Lifecycle.started oxde.Api.Lifecycle.stop_previous oxde.Api.Lifecycle.with_config
    oxde.Api.Lifecycle.with_request oxde.Containers.command_result_to_app_result
    oxde.Containers.drain_command_output Models.image_tag activate_deployment active_deployment_id
    oxde.Agent.Containers.lifted
failed_activation = refl

-- Then the container that served does not run any more.
stopped_in_vain :
    runs_on podman
      (λ id. id)
      (activate_with_containers platform crypto runtime db unsaved
        (machines true)
        (pos 9)
        60
        "aaa"
        "aaaaa").1
      1
      "c4"
    ≡ false
unfolding activate_with_containers flip get_app_by_id oxde.Storage.Rows.find_app_row_by_id
    oxde.Storage.Rows.app_from_row_with_permissions oxde.Storage.Rows.load_permissions
    oxde.Storage.Rows.app_from_row Models.run_config get_deployment
    oxde.Storage.Rows.find_deployment_row oxde.Storage.Rows.deployment_from_row Db.state_from_str
    oxde.Storage.EnvVars.decrypt_env_vars start_on oxde.Agent.Containers.start
    oxde.Agent.Containers.start_fresh oxde.Agent.Containers.and_then
    oxde.Agent.Containers.create_and_start oxde.Agent.Containers.install
    oxde.Agent.Containers.container_exists oxde.Agent.Containers.ensure_image
    oxde.Agent.Containers.env_strings oxde.Agent.Containers.is_running
    oxde.Agent.Handlers.final_result oxde.Agent.Handlers.start_run_container
    oxde.Agent.Handlers.stream_command oxde.Api.Lifecycle.flipped previous_container start_request
    oxde.Api.Lifecycle.started oxde.Api.Lifecycle.stop_previous oxde.Api.Lifecycle.with_config
    oxde.Api.Lifecycle.with_request oxde.Containers.command_result_to_app_result
    oxde.Containers.drain_command_output Models.image_tag activate_deployment active_deployment_id
    oxde.Agent.Containers.lifted stop_on oxde.Agent.Containers.stop_and_remove
stopped_in_vain = refl

failed_activation_keeps_others_example :
    Memᴰ
      (activate_with_containers platform crypto runtime db unsaved
        (machines true)
        (pos 9)
        60
        "aaa"
        "aaaaa").0
      (db ∷ db ∷ db ∷ [])
    × ((runs_on podman
            (λ id. id)
            (activate_with_containers platform crypto runtime db unsaved
              (machines true)
              (pos 9)
              60
              "aaa"
              "aaaaa").1
            1
            "c4"
          ≡ runs_on podman (λ id. id) (machines true) 1 "c4")
        ⊎ ((previous : String) × (previous_container platform crypto runtime db "aaa" "aaaaa"
              ≡ some previous)
            × ((1 == 1 && str_eq previous "c4") ≡ true)
            × (flip platform crypto runtime unsaved (pos 9) "aaa" "aaaaa"
                ≡ err (AppError.io "disk full"))))
unfolding oxde.Agent.Containers.install_container_name
failed_activation_keeps_others_example =
    failed_activation_keeps_others platform crypto runtime db unsaved (machines true) (pos 9) 60
      "aaa" "aaaaa" shop (deployment "aaaaa" "c5") "c5" 1 "c4" shop_found second_found refl refl
      refl failed_activation

second_activated :
    (activate_with_containers platform crypto runtime db
      (quiet db)
      (machines true)
      (pos 9)
      60
      "aaa"
      "aaaaa").2
    ≡ ok tt
unfolding activate_with_containers flip get_app_by_id oxde.Storage.Rows.find_app_row_by_id
    oxde.Storage.Rows.app_from_row_with_permissions oxde.Storage.Rows.load_permissions
    oxde.Storage.Rows.app_from_row Models.run_config get_deployment
    oxde.Storage.Rows.find_deployment_row oxde.Storage.Rows.deployment_from_row Db.state_from_str
    oxde.Storage.EnvVars.decrypt_env_vars start_on oxde.Agent.Containers.start
    oxde.Agent.Containers.start_fresh oxde.Agent.Containers.and_then
    oxde.Agent.Containers.create_and_start oxde.Agent.Containers.install
    oxde.Agent.Containers.container_exists oxde.Agent.Containers.ensure_image
    oxde.Agent.Containers.env_strings oxde.Agent.Containers.is_running
    oxde.Agent.Handlers.final_result oxde.Agent.Handlers.start_run_container
    oxde.Agent.Handlers.stream_command oxde.Api.Lifecycle.flipped previous_container start_request
    oxde.Api.Lifecycle.started oxde.Api.Lifecycle.stop_previous oxde.Api.Lifecycle.with_config
    oxde.Api.Lifecycle.with_request oxde.Containers.command_result_to_app_result
    oxde.Containers.drain_command_output Models.image_tag activate_deployment active_deployment_id
    oxde.Agent.Containers.lifted
second_activated = refl

activated_runs_example :
    runs_on podman
      (λ id. id)
      (activate_with_containers platform crypto runtime db
        (quiet db)
        (machines true)
        (pos 9)
        60
        "aaa"
        "aaaaa").1
      1
      "c5"
    ≡ true
unfolding Models.run_config
activated_runs_example =
    activated_runs platform crypto runtime db (quiet db) (machines true) (pos 9) 60 "aaa" "aaaaa"
      shop (deployment "aaaaa" "c5") "c5" cfg (some "c4") shop_found refl second_found refl
      active_container refl second_activated

abbrev request : StartRequest
request = record {
  deployment_id = "bbbb";
  container_name = "c4";
  run_config = cfg;
  env_vars = [];
  install_timeout_secs = 60;
}

request_made : start_request platform crypto runtime db shop cfg "aaa" "bbbb" 60 ≡ ok request
unfolding start_request get_deployment oxde.Storage.Rows.find_app_row_by_id
    oxde.Storage.Rows.find_deployment_row oxde.Storage.Rows.deployment_from_row Db.state_from_str
    oxde.Storage.EnvVars.decrypt_env_vars
request_made = refl

request_starts : (start_on podman (λ id. id) (machines true) 1 request).1 ≡ ok tt
unfolding start_on oxde.Agent.Containers.start
request_starts = refl

started_stops :
    (stop_on podman
      (λ id. id)
      (start_on podman (λ id. id) (machines true) 1 request).0
      1
      "c4"
      false).1
    ≡ ok tt
unfolding stop_on start_on oxde.Agent.Containers.stop_and_remove oxde.Agent.Containers.start
started_stops = refl

reactivation_stops_itself_example :
    ((activate_with_containers platform crypto runtime db
        (quiet db)
        (machines true)
        (pos 9)
        60
        "aaa"
        "bbbb").2
      ≡ ok tt)
    × (runs_on podman
          (λ id. id)
          (activate_with_containers platform crypto runtime db
            (quiet db)
            (machines true)
            (pos 9)
            60
            "aaa"
            "bbbb").1
          1
          "c4"
        ≡ false)
unfolding Models.run_config
reactivation_stops_itself_example =
    reactivation_stops_itself platform crypto runtime db (machines true) (pos 9) 60 "aaa" "bbbb"
      shop (deployment "aaaa" "c4") "c4" cfg request shop_found refl is_active refl first_respelled
      first_found refl request_made request_starts started_stops

abbrev store : Store
store = record { db = db; app_dirs = 3 ∷ []; deployment_dirs = [] }

abbrev with_secret : (text : String) → List EnvVar
with_secret text = record { key = "KEY"; value = EnvVarValue.secret text } ∷ []

app_view_hides_secrets_example :
    app_view platform db (record shop { env_vars = with_secret "b" })
    ≡ app_view platform db (record shop { env_vars = with_secret "a" })
app_view_hides_secrets_example =
    app_view_hides_secrets platform db (record shop { env_vars = with_secret "a" })
      (with_secret "b") (refl, tt, tt)

abbrev upload : Field
upload = record {
  name = some "file";
  filename = some "a.zip";
  reads = chunk (1 ∷ 2 ∷ []) none ∷ chunk (3 ∷ []) none ∷ [];
  uncreated = none;
}

stored : (stream_upload_to_disk 3 (ok upload ∷ [])).1 ≡ ok (some "a.zip", 3)
unfolding stream_upload_to_disk
stored = refl

upload_writes_field_example :
    ((stream_upload_to_disk 3 (ok upload ∷ [])).0 ≡ 1 ∷ 2 ∷ 3 ∷ [])
    × (3 ≡ length (bytes_read upload.reads))
    × (some "a.zip" ≡ upload.filename)
upload_writes_field_example = upload_writes_field 3 [] upload [] refl refl stored

upload_never_exceeds_example : length (stream_upload_to_disk 2 (ok upload ∷ [])).0 ≤ 2
upload_never_exceeds_example = upload_never_exceeds 2 (ok upload ∷ [])
