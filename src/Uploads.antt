-- ===== src/Uploads.antt =====
-- berth-hub/src/agent_fs.rs, and the upload of berth-agent/src/handlers.rs and fs_ops.rs: a zip that the
-- hub sends in chunks and the agent unpacks and puts in place. Creating, writing, opening and renaming
-- are what the file system answers; a scratch directory can be removed.
pub mod Placed
pub mod Tests
use oxde.Prelude.Find.{map_option}
use oxde.Prelude.{
  ℕ, zero, suc, String, Bool, false, Option, none, some, List, [], ◌∷◌, ◌++◌, true, if◌then◌else◌,
}
use oxde.Prelude.Result.{Result, ok, err}
use oxde.Error.{AppError, AppResult}
use oxde.Relay.{ByteVec, Chunk, last_chunk, more, AgentError, AgentErrorKind}
use oxde.Archives.{Entry, Created, Partial, agent_unpack_zip}

unfoldable pub fs_agent_error : AgentError → AppError
fs_agent_error error = elim error.kind [
  | AgentErrorKind.command_failed ↦ AppError.command_failed error.message
  | AgentErrorKind.start_failed ↦ AppError.agent_operation_failed error.message
  | AgentErrorKind.unavailable ↦ AppError.agent_operation_failed error.message
  | AgentErrorKind.unspecified ↦ AppError.agent_operation_failed error.message
]

-- The chunks that the hub sends for what reading the file gives, up to its end; no read is empty
-- before it. A read that fails ends them without the final mark. `room` counts those that get
-- through to the agent.
unfoldable pub upload_payloads : (room : ℕ) → List (Result ByteVec String) → List Chunk
upload_payloads zero reads = []
upload_payloads (suc room) [] = last_chunk ∷ []
upload_payloads (suc room) (ok [] ∷ reads) = last_chunk ∷ []
upload_payloads (suc room) (ok (b ∷ bytes) ∷ reads) = more (b ∷ bytes) ∷ upload_payloads room reads
upload_payloads (suc room) (err message ∷ reads) = []

abbrev pub stream_closed : String
stream_closed = "hub closed the upload stream before sending a final chunk"

-- The loop over the chunks, onto what is already in the file. After the last one the channel is
-- closed, or the loop waits: then there is no result.
unfoldable pub receive_chunks :
    (closed : Bool)
    → (writes : ByteVec → Result (Unit {0}) String) → (file : ByteVec) → List Chunk
    → ByteVec × Option (Result (Unit {0}) String)
receive_chunks closed writes file [] = (file, if closed then some (err stream_closed) else none)
receive_chunks closed writes file (chunk ∷ chunks) =
    let rest = receive_chunks closed writes (file ++ chunk.payload) chunks in
    elim (writes chunk.payload) [
      | err message ↦ (file, some (err message))
      | ok _ ↦ if chunk.is_final then (file ++ chunk.payload, some (ok tt)) else rest
    ]

-- What the agent's file system and reader of archives answer.
pub record Disk : Type 0 where
  pub create_zip : Result (Unit {0}) String
  pub writes : ByteVec → Result (Unit {0}) String
  pub create_staging : Result (Unit {0}) String
  pub open_zip : Result (Unit {0}) String
  pub read_zip : ByteVec → Result (List (Result Entry String)) String
  pub writes_entry : Entry → Result (Unit {0}) Partial
  pub rename : Result (Unit {0}) String

-- The scratch directory and the `files` directory of one deployment.
pub record Dirs : Type 0 where
  pub staging : Option (List Created)
  pub files : Option (List Created)

unfoldable pub receive_zip :
    (closed : Bool) → Disk → List Chunk → ByteVec × Option (Result (Unit {0}) String)
unfolding receive_chunks
receive_zip closed disk chunks = elim disk.create_zip [
  | err message ↦ ([], some (err message))
  | ok _ ↦ receive_chunks closed disk.writes [] chunks
]

-- from the rename on
unfoldable pub place : Disk → Dirs → List Created × Result ℕ String → Dirs × Result ℕ String
place disk dirs (made, err message) = (record dirs { staging = none }, err message)
place disk dirs (made, ok size) = elim disk.rename [
  | err message ↦ (record dirs { staging = none }, err message)
  | ok _ ↦ (record { staging = none; files = some made }, ok size)
]

unfoldable pub extract_and_place :
    Disk → (max_uncompressed_bytes : ℕ) → Dirs → (zip : ByteVec) → Dirs × Result ℕ String
unfolding place
extract_and_place disk max dirs zip = elim disk.create_staging [
  | err message ↦ (record dirs { staging = none }, err message)
  | ok _ ↦ elim disk.open_zip [
    | err message ↦ (record dirs { staging = some [] }, err message)
    | ok _ ↦ place disk dirs (agent_unpack_zip max disk.writes_entry (disk.read_zip zip))
  ]
]

pub data UploadResult : Type 0 where
  content_size_bytes : ℕ → UploadResult
  error : AgentError → UploadResult
  empty : UploadResult

abbrev pub upload_result : Result ℕ String → UploadResult
upload_result (ok size) = content_size_bytes size
upload_result (err message) =
    error (record { kind = AgentErrorKind.command_failed; message = message })

abbrev pub received :
    Disk
    → (max_uncompressed_bytes : ℕ) → Dirs
    → ByteVec × Option (Result (Unit {0}) String)
    → Dirs × Option (Result ℕ String)
received disk max dirs (zip, none) = (dirs, none)
received disk max dirs (zip, some (err message)) = (dirs, some (err message))
received disk max dirs (zip, some (ok _)) =
    let placed = extract_and_place disk max dirs zip in (placed.0, some placed.1)

-- The handler that the first chunk starts. The table of uploads keeps a sender for as long as the
-- handler runs, so that its channel is not closed. Chunks that come after the handler has ended,
-- because a write failed, start another one, which is left out.
unfoldable pub agent_upload :
    Disk → (max_uncompressed_bytes : ℕ) → Dirs → List Chunk → Dirs × Option UploadResult
unfolding receive_zip extract_and_place
agent_upload disk max dirs [] = (dirs, none)
agent_upload disk max dirs (chunk ∷ chunks) =
    let done = received disk max dirs (receive_zip false disk (chunk ∷ chunks)) in
    (done.0, map_option upload_result done.1)

unfoldable pub uploaded : UploadResult → AppResult ℕ
unfolding fs_agent_error
uploaded (content_size_bytes size) = ok size
uploaded (error e) = err (fs_agent_error e)
uploaded empty = err (AppError.agent_error "agent sent an empty UploadZipAndExtract result")

-- How `call_streamed` ends: with the agent's answer, if it gives one in time; because the agent is
-- not connected or its session ends; or at the time limit.
pub data CallEnd : Type 0 where
  answered unavailable timed_out : CallEnd

abbrev pub reply : CallEnd → Option UploadResult → AppResult ℕ
reply answered (some result) = uploaded result
reply answered none = err AppError.agent_timeout
reply unavailable result = err AppError.agent_unavailable
reply timed_out result = err AppError.agent_timeout

-- The hub's call. `opened` is the answer to opening the file.
unfoldable pub upload_zip_and_extract :
    (opened : AppResult (Unit {0}))
    → (room : ℕ) → CallEnd
    → Disk
    → (max_uncompressed_bytes : ℕ) → Dirs
    → (reads : List (Result ByteVec String)) → Dirs × AppResult ℕ
unfolding upload_payloads agent_upload uploaded
upload_zip_and_extract opened room ends disk max dirs reads =
    let done = agent_upload disk max dirs (upload_payloads room reads) in
    elim opened [ err e ↦ (dirs, err e) | ok _ ↦ (done.0, reply ends done.1) ]
