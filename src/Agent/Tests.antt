-- ===== src/Agent/Tests.antt =====
-- An install that writes two pieces of output and then fails.
use oxde.Prelude.{arith, ◌≡◌, List, [], ◌∷◌, ◌++◌}
use oxde.Prelude.Result.{err}
use oxde.Relay.{ByteVec}
use oxde.Containers.{drain_command_output}
use oxde.Agent.Containers.{command_failed}
use oxde.Agent.Handlers.{stream_command, drain-stream_command, reported_result}

abbrev logs : List ByteVec
logs = (1 ∷ 2 ∷ []) ∷ (3 ∷ []) ∷ []

drain-stream_command_example :
    drain_command_output (stream_command 3 logs (err (command_failed "x")) ++ [])
    ≡ (logs, reported_result (err (command_failed "x")))
drain-stream_command_example =
    drain-stream_command 3 logs (err (command_failed "x")) [] (omega arith)
