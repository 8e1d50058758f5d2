-- ===== src/Agent/Handlers.antt =====
-- berth-agent/src/handlers.rs: what the agent answers to a command.
use oxde.Prelude.{
  ℕ, zero, suc, ◌<◌, ◌≤◌, take, length, arith, String, Bool, List, [], ◌∷◌, ◌++◌, if◌then◌else◌,
  ◌≡◌, refl,
}
use oxde.Prelude.Result.{Result, ok, err}
use oxde.Error.{AppError, AppResult}
use oxde.Models.{image_tag}
use oxde.Relay.{ByteVec, more, AgentErrorKind}
use oxde.Containers.{
  CommandResult, Output, StartRequest, drain_command_output, command_result_to_app_result,
}
use oxde.Agent.Containers.{
  Docker, StartError, start, stop_and_remove, install_container_name, RunContainerConfig,
}

abbrev command_result_err : AgentErrorKind → String → CommandResult
command_result_err kind message = CommandResult.error (record { kind = kind; message = message })

unfoldable pub start_error_to_command_result : StartError → CommandResult
start_error_to_command_result (StartError.unavailable message) =
    command_result_err AgentErrorKind.unavailable message
start_error_to_command_result (StartError.start_failed message) =
    command_result_err AgentErrorKind.start_failed message
start_error_to_command_result (StartError.command_failed message) =
    command_result_err AgentErrorKind.command_failed message

unfoldable pub final_result : Result (Unit {0}) StartError → CommandResult
unfolding start_error_to_command_result
final_result (ok _) = CommandResult.done
final_result (err e) = start_error_to_command_result e

-- What the command wrote, then its result.
abbrev pub messages : (logs : List ByteVec) → Result (Unit {0}) StartError → List Output
messages [] outcome = Output.result (final_result outcome) ∷ []
messages (bytes ∷ logs) outcome = Output.log (more bytes) ∷ messages logs outcome

-- `room` counts the sends that succeed: after one that fails nothing gets through.
unfoldable pub stream_command :
    (room : ℕ) → (logs : List ByteVec) → Result (Unit {0}) StartError → List Output
unfolding final_result
stream_command room logs outcome = take room (messages logs outcome)

-- The error that the hub reports for an agent's.
abbrev pub reported : StartError → AppError
reported (StartError.unavailable message) = AppError.container_unavailable message
reported (StartError.start_failed message) = AppError.container_start_failed message
reported (StartError.command_failed message) = AppError.command_failed message

abbrev pub reported_result : Result (Unit {0}) StartError → AppResult (Unit {0})
reported_result (ok _) = ok tt
reported_result (err e) = err (reported e)

command_result-reported :
    (outcome : Result (Unit {0}) StartError)
    → command_result_to_app_result (final_result outcome) ≡ reported_result outcome
unfolding command_result_to_app_result final_result
command_result-reported (ok _) = refl
command_result-reported (err (StartError.unavailable message)) = refl
command_result-reported (err (StartError.start_failed message)) = refl
command_result-reported (err (StartError.command_failed message)) = refl

-- `start_run_container` and `stop_and_remove_container`; the requests' JSON decodes, and a
-- deployment's files are in `files_dir`.
module _ (docker : Docker) (files_dir : (deployment_id : String) → String) where
  open docker use {Daemon}

  abbrev pub run_container_config : StartRequest → RunContainerConfig
  run_container_config request = record {
    image = image_tag request.run_config.image;
    install_command = request.run_config.install_command;
    start_command = request.run_config.start_command;
    env_vars = request.env_vars;
    install_timeout = request.install_timeout_secs;
  }

  -- what the installation wrote goes before the result
  unfoldable pub start_run_container :
      Daemon → StartRequest → (room : ℕ) → (logs : List ByteVec) → Daemon × List Output
  unfolding stream_command
  start_run_container d request room logs =
      let (d', outcome) =
        start docker d request.container_name (files_dir request.deployment_id)
          (run_container_config request) in
      (d', stream_command room logs outcome)

  abbrev pub command_result : Result (Unit {0}) String → CommandResult
  command_result (ok _) = CommandResult.done
  command_result (err message) = command_result_err AgentErrorKind.unavailable message

  unfoldable pub stop_and_remove_container :
      Daemon → (container_name : String) → (is_install : Bool) → Daemon × CommandResult
  unfolding install_container_name
  stop_and_remove_container d container_name is_install =
      let (d', outcome) =
        stop_and_remove docker d
          (if is_install then install_container_name container_name else container_name) in
      (d', command_result outcome)

-- What a command writes and how it ends reaches the hub while the sends succeed: the log pump is given
-- every piece of output in order, and the call's result is the command's, an error of each kind as
-- the error of its kind.
pub drain-stream_command :
    (room : ℕ) (logs : List ByteVec) (outcome : Result (Unit {0}) StartError) (later : List Output)
    → length logs < room
    → drain_command_output (stream_command room logs outcome ++ later)
      ≡ (logs, reported_result outcome)
unfolding drain_command_output stream_command
drain-stream_command zero logs outcome later small = absurd (omega (arith, small))
drain-stream_command (suc room) [] outcome later small = rw (command_result-reported outcome) refl
drain-stream_command (suc room) (bytes ∷ logs) outcome later small =
    rw (drain-stream_command room logs outcome later (omega (arith, small))) refl

-- If a send fails, what got through is pushed and the call fails.
cut_stream_fails :
    (room : ℕ) (logs : List ByteVec) (outcome : Result (Unit {0}) StartError)
    → room ≤ length logs
    → drain_command_output (stream_command room logs outcome) ≡ (
      take room logs,
      err (AppError.agent_error "agent closed the stream without a final result"),
    )
unfolding drain_command_output stream_command
cut_stream_fails zero logs outcome small = refl
cut_stream_fails (suc room) [] outcome small = absurd (omega (arith, small))
cut_stream_fails (suc room) (bytes ∷ logs) outcome small =
    rw (cut_stream_fails room logs outcome (omega (arith, small))) refl
