-- ===== src/Containers.antt =====
-- berth-hub/src/containers.rs: the hub's calls that start, stop and ask for containers, and what it
-- makes of an agent's answers. `Agents` is what the routes use of them.
pub mod Machines
use oxde.Prelude.{
  ℕ, String, ◌≡◌, Bool, true, false, not, ◌&&◌, ◌==◌, Option, none, some, List, [], ◌∷◌, str_eq,
}
use oxde.Prelude.Result.{ok, err}
use oxde.Error.{AppError, AppResult}
use oxde.Models.{EnvVar, RunConfig}
use oxde.Relay.{
  AgentError, AgentErrorKind, unavailable, unspecified, start_failed, command_failed, ByteVec,
  Chunk,
}

pub data CommandResult : Type 0 where
  done : CommandResult
  error : AgentError → CommandResult
  empty : CommandResult

-- `command_output::Output`; `nothing` stands for a message with no output or of another kind.
pub data Output : Type 0 where
  log : Chunk → Output
  result : CommandResult → Output
  nothing : Output

unfoldable pub agent_error : AgentError → AppError
agent_error e = elim e.kind [
  | start_failed ↦ AppError.container_start_failed e.message
  | command_failed ↦ AppError.command_failed e.message
  | unavailable ↦ AppError.container_unavailable e.message
  | unspecified ↦ AppError.container_unavailable e.message
]

unfoldable pub command_result_to_app_result : CommandResult → AppResult (Unit {0})
unfolding agent_error
command_result_to_app_result done = ok tt
command_result_to_app_result (error e) = err (agent_error e)
command_result_to_app_result empty = err (AppError.agent_error "agent sent an empty command result")

-- The chunks that the pump is pushed, and the result.
unfoldable pub drain_command_output : List Output → List ByteVec × AppResult (Unit {0})
unfolding command_result_to_app_result
drain_command_output [] =
    ([], err (AppError.agent_error "agent closed the stream without a final result"))
drain_command_output (nothing ∷ later) =
    ([], err (AppError.agent_error "agent closed the stream without a final result"))
drain_command_output (result r ∷ later) = ([], command_result_to_app_result r)
drain_command_output (log chunk ∷ later) =
    (chunk.payload ∷ (drain_command_output later).0, (drain_command_output later).1)

pub record StartRequest : Type 0 where
  pub deployment_id : String
  pub container_name : String
  pub run_config : RunConfig
  pub env_vars : List EnvVar
  pub install_timeout_secs : ℕ

-- What the routes call: the containers of all hosts, and how the calls change them. A call may fail
-- after the container was changed, so that an error promises nothing about it.
pub record Agents : Type 1 where
  pub Machines : Type 0
  pub runs : Machines → (host_id : ℕ) → (name : String) → Bool
  pub start : Machines → (host_id : ℕ) → StartRequest → Machines × AppResult (Unit {0})
  pub stop_and_remove :
      Machines
      → (host_id : ℕ) → (name : String) → (is_install : Bool) → Machines × AppResult (Unit {0})
  pub is_running : Machines → (host_id : ℕ) → (name : String) → AppResult Bool
  -- the container in which a container's dependencies are installed
  pub installer : (name : String) → String
  pub runs-start_ok :
      (m : Machines) (host_id : ℕ) (request : StartRequest)
      → (start m host_id request).1 ≡ ok tt
      → runs (start m host_id request).0 host_id request.container_name ≡ true
  pub runs-start :
      (m : Machines) (host_id : ℕ) (request : StartRequest) (other : ℕ) (name : String)
      → (host_id == other && str_eq request.container_name name) ≡ false
      → (host_id == other && str_eq (installer request.container_name) name) ≡ false
      → runs (start m host_id request).0 other name ≡ runs m other name
  pub runs-stop_ok :
      (m : Machines) (host_id : ℕ) (name : String)
      → (stop_and_remove m host_id name false).1 ≡ ok tt
      → runs (stop_and_remove m host_id name false).0 host_id name ≡ false
  pub runs-stop :
      (m : Machines) (host_id : ℕ) (name : String) (other : ℕ) (other_name : String)
      → (host_id == other && str_eq name other_name) ≡ false
      → runs (stop_and_remove m host_id name false).0 other other_name ≡ runs m other other_name
