-- ===== src/Models.antt =====
-- berth-models/src/lib.rs: what the hub and the agent exchange about apps and deployments. A
-- `Timestamp` is its epoch second.
pub mod Validate
pub mod Access
pub mod Slug
pub mod EnvVars
use oxde.Prelude.{ℕ, String, Option, none, some, List, any}
use oxde.Prelude.Int.{ℤ}
use oxde.Prelude.{Bool, true, false, ◌&&◌, str_eq}

pub data ModelError : Type 0 where
  invalid_name invalid_repo_url invalid_run_config invalid_build_config : String → ModelError
  invalid_env_var : String → ModelError

pub data PermissionLevel : Type 0 where
  read write : PermissionLevel

pub record AppPermission : Type 0 where
  pub username : String
  pub level : PermissionLevel

pub data EnvVarValue : Type 0 where
  plain secret : String → EnvVarValue

pub record EnvVar : Type 0 where
  pub key : String
  pub value : EnvVarValue

-- `Secret(None)` means "keep the existing encrypted value".
pub data EnvVarInputValue : Type 0 where
  plain : String → EnvVarInputValue
  secret : Option String → EnvVarInputValue

pub record EnvVarInput : Type 0 where
  pub key : String
  pub value : EnvVarInputValue

pub data RunImage : Type 0 where
  node24 python314 : RunImage

pub record BuildConfig : Type 0 where
  pub image : RunImage
  pub command : String
  pub output_dir : String

-- `container_port` is a `u16`.
pub record RunConfig : Type 0 where
  pub image : RunImage
  pub install_command : Option String
  pub start_command : String
  pub container_port : ℕ

pub data GitDeployMode : Type 0 where
  static : (publish_dir : Option String) → GitDeployMode
  build : BuildConfig → GitDeployMode
  run : RunConfig → GitDeployMode

pub record GitSource : Type 0 where
  pub repo_url : String
  pub branch : String
  pub mode : GitDeployMode

pub data AppSource : Type 0 where
  upload : AppSource
  git : GitSource → AppSource

pub record App : Type 0 where
  pub id : String
  pub name : String
  pub created_at : ℤ
  pub updated_at : ℤ
  pub host_id : ℕ
  pub source : AppSource
  pub env_vars : List EnvVar
  pub permissions : List AppPermission

-- `Write` satisfies a `Read` requirement; `Read` does not satisfy `Write`.
unfoldable pub satisfies : PermissionLevel → PermissionLevel → Bool
satisfies write _ = true
satisfies read read = true
satisfies read write = false

unfoldable pub has_permission : App → String → PermissionLevel → Bool
has_permission app username required =
    any (λ grant. str_eq grant.username username && satisfies grant.level required) app.permissions

mode_run_config : GitDeployMode → Option RunConfig
mode_run_config (run r) = some r
mode_run_config (static _) = none
mode_run_config (build _) = none

source_run_config : AppSource → Option RunConfig
unfolding mode_run_config
source_run_config (git source) = mode_run_config source.mode
source_run_config upload = none

unfoldable pub run_config : App → Option RunConfig
unfolding source_run_config
run_config app = source_run_config app.source

pub data DeploymentStatus : Type 0 where
  pending ready : DeploymentStatus
  failed : (error : String) → DeploymentStatus

pub record GitDeploymentInfo : Type 0 where
  pub commit_sha : String
  pub branch : String

pub record BuildInfo : Type 0 where
  pub image : RunImage
  pub command : String

pub record Deployment : Type 0 where
  pub id : String
  pub app : String
  pub created_at : ℤ
  pub original_filename : Option String
  pub upload_size_bytes : ℕ
  pub git : Option GitDeploymentInfo
  pub build_info : Option BuildInfo
  pub container_name : Option String
  pub status : DeploymentStatus

unfoldable pub image_tag : RunImage → String
image_tag node24 = "docker.io/library/node:24"
image_tag python314 = "docker.io/library/python:3.14"
