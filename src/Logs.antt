-- ===== src/Logs.antt =====
-- berth-hub/src/deployment_logs.rs: the log files of one deployment's directory, the pump that
-- writes them, and the registry of the pumps that run. What the file system answers is an argument
-- (`PushIo` and Booleans); a file that a pump holds open is written by no one else. A broadcast
-- channel is the list of what was sent on it.
pub mod Backlog
pub mod Registry
pub mod Phases
pub mod Tests
use oxde.Prelude.{
  ℕ, zero, suc, ◌+◌, ◌*◌, String, Bool, true, false, ◌&&◌, Option, none, some, List, [], ◌∷◌, ◌++◌,
  Map, insert, remove, string_key, length, find, leb, if◌then◌else◌,
}
use oxde.Prelude.Text.{is_some}
use oxde.Prelude.Result.{ok, err, ◌>>=◌}
use oxde.Error.{AppError, AppResult}

pub data LogKind : Type 0 where
  clone install build run : LogKind

unfoldable pub file_name : LogKind → String
file_name clone = "clone.log"
file_name install = "install.log"
file_name build = "build.log"
file_name run = "run.log"

abbrev pub is_run : LogKind → Bool
is_run run = true
is_run clone = false
is_run install = false
is_run build = false

abbrev pub run_log_rotate_bytes : ℕ
run_log_rotate_bytes = 1024 * 1024

abbrev pub Content : Type 0
Content = List ℕ

-- A deployment's directory: the contents of its files.
abbrev pub Files : Type 0
Files = Map String Content

abbrev pub LogRegistry : Type 0
LogRegistry = Map String LogKind

unfoldable pub active : LogRegistry → (deployment_id : String) → Option LogKind
active registry deployment_id = registry deployment_id

-- `None` if a pump is registered already; the sender is that of the pump.
unfoldable pub try_register : LogRegistry → (deployment_id : String) → LogKind → Option LogRegistry
try_register registry deployment_id kind = elim (registry deployment_id) [
  | some _ ↦ none
  | none ↦ some (insert registry deployment_id kind)
]

unfoldable pub deregister : LogRegistry → (deployment_id : String) → LogRegistry
deregister registry deployment_id = remove registry deployment_id

pub record LogPump : Type 0 where
  pub deployment_id : String
  pub kind : LogKind
  pub sent : List Content
  pub file : Bool
  pub bytes_written : ℕ

-- What the file system answers during one `push`: whether the rename and the open succeed, and
-- where the write ends if it fails.
pub record PushIo : Type 0 where
  pub renames : Bool
  pub opens : Bool
  pub write_fails_at : Option ℕ

-- The size of a file, of which a missing one has none.
abbrev pub size : Option Content → ℕ
size none = 0
size (some content) = length content

-- `create` with `append`, or with `truncate`
unfoldable pub open_for_kind : LogKind → Files → (opens : Bool) → Files × Bool
unfolding file_name
open_for_kind kind files opens =
    if opens
    then (
      (if is_run kind && is_some (files (file_name kind))
          then files
          else insert files (file_name kind) []),
      true,
    )
    else (files, false)

unfoldable pub rotate_and_reopen : Files → PushIo → Files × Bool
unfolding open_for_kind
rotate_and_reopen files io = elim (files "run.log") [
  | none ↦ (files, false)
  | some content ↦
      if io.renames
      then open_for_kind run (insert (remove files "run.log") "run.log.1" content) io.opens
      else (files, false)
]

unfoldable pub try_new :
    LogRegistry
    → Files
    → (deployment_id : String) → LogKind
    → (opens measures : Bool) → Option (LogRegistry × Files × LogPump)
unfolding try_register open_for_kind
try_new registry files deployment_id kind opens measures =
    elim (try_register registry deployment_id kind) [
      | none ↦ none
      | some registered ↦
          let opened = open_for_kind kind files opens in
          some (
            registered,
            opened.0,
            record {
              deployment_id = deployment_id;
              kind = kind;
              sent = [];
              file = opened.1;
              bytes_written = if opened.1 && measures then size (opened.0 (file_name kind)) else 0;
            },
          )
    ]

-- the first `if` of `push`
unfoldable pub rotate_if_full : Files → LogPump → PushIo → Files × LogPump
unfolding rotate_and_reopen
rotate_if_full files pump io =
    if pump.file && is_run pump.kind && leb run_log_rotate_bytes pump.bytes_written
    then (
      (rotate_and_reopen files io).0,
      record pump { file = (rotate_and_reopen files io).1; bytes_written = 0 },
    )
    else (files, pump)

abbrev pub first : ℕ → Content → Content
first zero content = []
first (suc n) [] = []
first (suc n) (b ∷ content) = b ∷ first n content

-- An open file that has lost its name is written where no one reads it.
unfoldable pub append_to : Files → (name : String) → Content → Files
append_to files name chunk = elim (files name) [
  | none ↦ files
  | some content ↦ insert files name (content ++ chunk)
]

-- the second `if` of `push`: `write_all` may have written a part when it fails
unfoldable pub write_chunk : Files → LogPump → Content → PushIo → Files × LogPump
unfolding append_to file_name
write_chunk files pump chunk io =
    if pump.file
    then elim io.write_fails_at [
      | none ↦ (
        append_to files (file_name pump.kind) chunk,
        record pump { bytes_written = pump.bytes_written + length chunk },
      )
      | some at ↦ (append_to files (file_name pump.kind) (first at chunk), pump)
    ]
    else (files, pump)

unfoldable pub push : Files → LogPump → Content → PushIo → Files × LogPump
unfolding rotate_if_full write_chunk
push files pump chunk io =
    let rotated = rotate_if_full files pump io in
    let written = write_chunk rotated.0 rotated.1 chunk io in
    (written.0, record (written.1) { sent = (written.1).sent ++ chunk ∷ [] })

-- `Drop`
unfoldable pub drop_pump : LogRegistry → LogPump → LogRegistry
unfolding deregister
drop_pump registry pump = deregister registry pump.deployment_id

-- What a subscriber's `recv` returns.
pub data Recv : Type 0 where
  bytes : Content → Recv
  lagged : ℕ → Recv
  closed : Recv

unfoldable pub live_tail : List Recv → List Content
live_tail [] = []
live_tail (bytes chunk ∷ later) = chunk ∷ live_tail later
live_tail (lagged skipped ∷ later) = live_tail later
live_tail (closed ∷ later) = []

unfoldable pub read_into :
    Files → (name : String) → (readable : String → Bool) → Content → AppResult Content
read_into files name readable buf = elim (files name) [
  | none ↦ ok buf
  | some content ↦ if readable name then ok (buf ++ content) else err (AppError.io name)
]

unfoldable pub read_backlog : Files → LogKind → (readable : String → Bool) → AppResult Content
unfolding read_into file_name
read_backlog files kind readable = do
  buf ← if is_run kind then read_into files "run.log.1" readable [] else ok []
  read_into files (file_name kind) readable buf

unfoldable pub resolve_terminal_phase : Files → Option LogKind
unfolding file_name
resolve_terminal_phase files =
    find (λ kind. is_some (files (file_name kind))) (run ∷ build ∷ install ∷ clone ∷ [])
