-- ===== src/Logs/Phases.antt =====
-- berth-hub/src/deployment_logs.rs: the phase that is shown when no pump runs, live tails, and the
-- logs of a clone, an install and a build.
use oxde.Prelude.{◌≡◌, Bool, true, false, some, arith, string_key}
use oxde.Prelude.Text.{is_some}
use oxde.Logs.{LogKind, run, build, install, clone, file_name, Files, resolve_terminal_phase}

-- How far a deployment is in each phase.
abbrev pub Reached : Files → LogKind → Type 0
Reached files kind = is_some (files (file_name kind)) ≡ true

abbrev pub precedes : LogKind → LogKind → Bool
precedes clone clone = false
precedes clone install = true
precedes clone build = true
precedes clone run = true
precedes install clone = false
precedes install install = false
precedes install build = true
precedes install run = true
precedes build clone = false
precedes build install = false
precedes build build = false
precedes build run = true
precedes run later = false

-- When no pump runs, the phase that is shown is one that the deployment has reached, and no later
-- phase was reached.
pub resolve_terminal_phase_latest :
    (files : Files) (kind : LogKind)
    → resolve_terminal_phase files ≡ some kind
    → Reached files kind
      × ((later : LogKind) → precedes kind later ≡ true → is_some (files (file_name later)) ≡ false)
unfolding resolve_terminal_phase
resolve_terminal_phase_latest files kind found = ground arith
