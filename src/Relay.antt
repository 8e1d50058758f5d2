-- ===== src/Relay.antt =====
-- The HTTP part of a session's messages (berth-proto's berth.proto), as berth-hub/src/routes/apps.rs
-- and berth-agent/src/relay.rs exchange them under the id of one relayed request.
pub mod Hub
pub mod Agent
pub mod Queues
pub mod RoundTrip
pub mod Upgrade
pub mod Tests
use oxde.Prelude.{
  ℕ, String, Char, code, Bool, true, false, ◌&&◌, ◌||◌, Option, none, some, List, [], ◌∷◌, ◌++◌,
  leb, ◌==◌, if◌then◌else◌, ◌+◌, any,
}
use Prim.Native.String.{[] as end, ◌∷◌ as ◌then◌}
use oxde.Prelude.Text.{is_ascii_uppercase, split, trim}
use oxde.Http.{HeaderValue, text, opaque}

abbrev pub ByteVec : Type 0
ByteVec = List ℕ

pub record HttpHeader : Type 0 where
  pub name : String
  pub value : String

pub record Chunk : Type 0 where
  pub payload : ByteVec
  pub is_final : Bool

pub record RelayHttpRequestHead : Type 0 where
  pub method : String
  pub path : String
  pub headers : List HttpHeader
  pub container_name : String
  pub container_port : ℕ

pub record RelayHttpResponseHead : Type 0 where
  pub status : ℕ
  pub headers : List HttpHeader

pub data AgentErrorKind : Type 0 where
  unspecified unavailable start_failed command_failed : AgentErrorKind

pub record AgentError : Type 0 where
  pub kind : AgentErrorKind
  pub message : String

-- `relay_http_request::Part` and `relay_http_response::Part`
pub data RequestPart : Type 0 where
  head : RelayHttpRequestHead → RequestPart
  body_chunk : Chunk → RequestPart

pub data ResponsePart : Type 0 where
  head : RelayHttpResponseHead → ResponsePart
  body_chunk : Chunk → ResponsePart
  error : AgentError → ResponsePart

abbrev pub last_chunk : Chunk
last_chunk = record { payload = []; is_final = true }

abbrev pub more : ByteVec → Chunk
more payload = record { payload = payload; is_final = false }

-- What reading a body or a connection gives next.
pub data Frame : Type 0 where
  piece : ByteVec → Frame
  trailers : Frame
  failure : Frame

-- a header as `http` stores it
abbrev pub StoredHeader : Type 0
StoredHeader = String × HeaderValue

-- `value.to_str().ok().map(…)` under `filter_map`: what is not visible ASCII is left out
abbrev pub with_text : String → HeaderValue → List HttpHeader → List HttpHeader
with_text name (text value) headers = record { name = name; value = value } ∷ headers
with_text name opaque headers = headers

unfoldable pub forwarded : List StoredHeader → List HttpHeader
forwarded [] = []
forwarded ((name, value) ∷ headers) = with_text name value (forwarded headers)

abbrev pub ascii_lower : ℕ → ℕ
ascii_lower c = if is_ascii_uppercase c then c + 32 else c

-- `str::eq_ignore_ascii_case`
abbrev pub eq_ignore_ascii_case : String → String → Bool
eq_ignore_ascii_case end end = true
eq_ignore_ascii_case end (d then t) = false
eq_ignore_ascii_case (c then s) end = false
eq_ignore_ascii_case (c then s) (d then t) =
    ascii_lower (code c) == ascii_lower (code d) && eq_ignore_ascii_case s t

-- whether one of the tokens of a `Connection` header is `upgrade`
unfoldable pub names_upgrade : String → Bool
names_upgrade value = any (λ token. eq_ignore_ascii_case (trim token) "upgrade") (split b',' value)
