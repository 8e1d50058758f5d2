-- ===== src/Fixtures/Shop.antt =====
-- A store of one run-mode app with two deployments, of which the first is active, and hosts whose
-- daemons run two containers.
use oxde.Prelude.{
  ℕ, String, ◌≡◌, refl, true, Bool, Option, some, none, List, [], ◌∷◌, empty_map, insert,
  string_key,
}
use oxde.Prelude.Int.{pos}
use oxde.Prelude.Result.{ok}
use oxde.Models.{
  App, EnvVar, EnvVarValue, RunConfig, node24, GitSource, AppSource, GitDeployMode, Deployment,
}
use oxde.Models
use oxde.Db
use oxde.Db.{Db, encoded}
use oxde.Fixtures.{platform, empty_db}
use oxde.Storage.Apps.{get_app_by_id}
use oxde.Storage.Deployments.{get_deployment}
use oxde.Storage.Listing.{active_deployment_id}
use oxde.Containers.{Agents}
use oxde.Containers.Machines.{Hosts, agents}
use oxde.Agent.Podman.{podman}
use oxde.Api.Lifecycle.{}
use oxde.Api.Upload.{}

abbrev pub cfg : RunConfig
cfg = record { image = node24; install_command = none; start_command = "run"; container_port = 80 }

abbrev pub source : AppSource
source =
    AppSource.git
      (record { repo_url = "https://h/r"; branch = "main"; mode = GitDeployMode.run cfg })

abbrev pub shop_row : Option ℕ → Db.App
shop_row active = record {
  id = 3;
  name = "shop";
  source_json = encoded source;
  env_vars_json = encoded [];
  active_deployment_id = active;
  host_id = 1;
  created_at = pos 1;
  updated_at = pos 1;
}

abbrev pub row : ℕ → String → Db.Deployment
row id container = record {
  id = id;
  app_id = 3;
  created_at = pos 2;
  original_filename = none;
  upload_size_bytes = pos 10;
  git_info_json = none;
  build_info_json = none;
  container_name = some container;
  status = "ready";
  failure_error = none;
}

abbrev pub db : Db
db = record empty_db { apps = shop_row (some 4) ∷ []; deployments = row 4 "c4" ∷ row 5 "c5" ∷ [] }

abbrev pub runtime : Agents
runtime = agents podman (λ id. id)

-- The first deployment's container runs; the agent of the host is connected, or not.
abbrev pub machines : Bool → Hosts podman (λ id. id)
machines connected = record {
  daemon = λ host. insert (insert empty_map "c4" true) "c9" true;
  connected = λ host. connected;
  answers = λ host. true;
  installs = λ host. [];
}

abbrev pub shop : App
shop = record {
  id = "aaa";
  name = "shop";
  created_at = pos 1;
  updated_at = pos 1;
  host_id = 1;
  source = source;
  env_vars = [];
  permissions = [];
}

abbrev pub deployment : (id container : String) → Deployment
deployment id container = record {
  id = id;
  app = "shop";
  created_at = pos 2;
  original_filename = none;
  upload_size_bytes = 10;
  git = none;
  build_info = none;
  container_name = some container;
  status = Models.ready;
}

abbrev pub shops : List Deployment
shops = deployment "aaaa" "c4" ∷ deployment "aaaaa" "c5" ∷ []

pub shop_found : get_app_by_id platform db "aaa" ≡ ok shop
unfolding get_app_by_id oxde.Storage.Rows.find_app_row_by_id
    oxde.Storage.Rows.app_from_row_with_permissions oxde.Storage.Rows.load_permissions
    oxde.Storage.Rows.app_from_row
shop_found = refl

pub first_found : get_deployment platform db "aaa" "aaaa" ≡ ok (deployment "aaaa" "c4")
unfolding get_deployment oxde.Storage.Rows.find_app_row_by_id oxde.Storage.Rows.find_deployment_row
    oxde.Storage.Rows.deployment_from_row Db.state_from_str
first_found = refl

pub first_respelled : get_deployment platform db "aaa" "bbbb" ≡ ok (deployment "aaaa" "c4")
unfolding get_deployment oxde.Storage.Rows.find_app_row_by_id oxde.Storage.Rows.find_deployment_row
    oxde.Storage.Rows.deployment_from_row Db.state_from_str
first_respelled = refl

pub second_found : get_deployment platform db "aaa" "aaaaa" ≡ ok (deployment "aaaaa" "c5")
unfolding get_deployment oxde.Storage.Rows.find_app_row_by_id oxde.Storage.Rows.find_deployment_row
    oxde.Storage.Rows.deployment_from_row Db.state_from_str
second_found = refl

pub is_active : active_deployment_id platform db "aaa" ≡ some "aaaa"
unfolding active_deployment_id oxde.Storage.Rows.find_app_row_by_id
is_active = refl
