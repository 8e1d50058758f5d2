-- ===== src/Db.antt =====
-- berth-db/src/models.rs: the rows of the hub's database. A table is the list of its rows, in the
-- order of insertion; a UUID is its 128-bit number; a column that holds JSON is the value that it
-- decodes to, or the message of the error that decoding it ends in.
pub mod Query
use Prim.Native.String.{◌++◌}
use oxde.Prelude.{ℕ, String, Bool, Option, List, str_eq, if◌then◌else◌}
use oxde.Prelude.Int.{ℤ}
use oxde.Prelude.Result.{Result, ok, err}
use oxde.Models.{AppSource, EnvVar, GitDeploymentInfo, BuildInfo}

pub data JsonColumn (A : Type 0) : Type 0 where
  encoded : A → JsonColumn A
  malformed : (message : String) → JsonColumn A

pub record User : Type 0 where
  pub id : ℕ
  pub username : String
  pub password_hash : String
  pub role : String
  pub created_at : ℤ
  pub updated_at : ℤ

pub record App : Type 0 where
  pub id : ℕ
  pub name : String
  pub source_json : JsonColumn AppSource
  pub env_vars_json : JsonColumn (List EnvVar)
  pub active_deployment_id : Option ℕ
  pub host_id : ℕ
  pub created_at : ℤ
  pub updated_at : ℤ

pub record AppPermission : Type 0 where
  pub id : ℕ
  pub app_id : ℕ
  pub user_id : ℕ
  pub level : String
  pub created_at : ℤ
  pub updated_at : ℤ

pub record ApiToken : Type 0 where
  pub id : ℕ
  pub user_id : ℕ
  pub name : String
  pub token_id : String
  pub token_hash : String
  pub expires_at : ℤ
  pub revoked : Bool
  pub created_at : ℤ
  pub updated_at : ℤ

pub record Host : Type 0 where
  pub id : ℕ
  pub name : String
  pub token_id : String
  pub token_hash : String
  pub revoked : Bool
  pub last_seen_at : Option ℤ
  pub ip : Option String
  pub last_connected_ip : Option String
  pub created_at : ℤ
  pub updated_at : ℤ

-- `upload_size_bytes` is an `i64`.
pub record Deployment : Type 0 where
  pub id : ℕ
  pub app_id : ℕ
  pub created_at : ℤ
  pub original_filename : Option String
  pub upload_size_bytes : ℤ
  pub git_info_json : Option (JsonColumn GitDeploymentInfo)
  pub build_info_json : Option (JsonColumn BuildInfo)
  pub container_name : Option String
  pub status : String
  pub failure_error : Option String

pub record Db : Type 0 where
  pub users : List User
  pub apps : List App
  pub permissions : List AppPermission
  pub tokens : List ApiToken
  pub hosts : List Host
  pub deployments : List Deployment

pub data DeploymentState : Type 0 where
  pending ready failed : DeploymentState

unfoldable pub state_str : DeploymentState → String
state_str DeploymentState.pending = "pending"
state_str DeploymentState.ready = "ready"
state_str DeploymentState.failed = "failed"

unfoldable pub state_from_str : String → Result DeploymentState String
state_from_str value =
    if str_eq value "pending"
    then ok DeploymentState.pending
    else if str_eq value "ready"
    then ok DeploymentState.ready
    else if str_eq value "failed"
    then ok DeploymentState.failed
    else err ("invalid deployment state: " ++ value)

pub data PermissionLevel : Type 0 where
  read write : PermissionLevel

unfoldable pub level_str : PermissionLevel → String
level_str PermissionLevel.read = "read"
level_str PermissionLevel.write = "write"

unfoldable pub level_from_str : String → Result PermissionLevel String
level_from_str value =
    if str_eq value "read"
    then ok PermissionLevel.read
    else if str_eq value "write"
    then ok PermissionLevel.write
    else err ("invalid permission level: " ++ value)
