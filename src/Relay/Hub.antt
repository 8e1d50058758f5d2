-- ===== src/Relay/Hub.antt =====
-- berth-hub/src/routes/apps.rs: the hub's side of a relayed request. A channel is the list of the
-- messages that went through it; `room` counts the sends that succeed before its receiver is gone.
use oxde.Prelude.{
  ℕ, zero, suc, String, Bool, false, ◌&&◌, Option, none, some, List, [], ◌∷◌, ltb, leb, ◌==◌,
  if◌then◌else◌, str_eq, ◌^◌,
}
use oxde.Prelude.Text.{is_some}
use oxde.Http.{HeaderValue, text, opaque}
use oxde.Models.{RunConfig}
use oxde.Relay.{
  ByteVec, HttpHeader, RelayHttpRequestHead, RelayHttpResponseHead, RequestPart, ResponsePart,
  StoredHeader, Frame, piece, trailers, failure, last_chunk, more, forwarded, names_upgrade,
}

abbrev pub value_named : List StoredHeader → String → Option HeaderValue
value_named [] name = none
value_named ((n, value) ∷ headers) name =
    if str_eq n name then some value else value_named headers name

abbrev pub says_upgrade : Option HeaderValue → Bool
says_upgrade none = false
says_upgrade (some opaque) = false
says_upgrade (some (text value)) = names_upgrade value

-- `get` gives the first value of a repeated header.
unfoldable pub is_upgrade_request : List StoredHeader → Bool
unfolding names_upgrade
is_upgrade_request headers =
    is_some (value_named headers "upgrade") && says_upgrade (value_named headers "connection")

-- `http::request::Parts`; `path_and_query` is missing from some URIs.
pub record Parts : Type 0 where
  pub method : String
  pub path_and_query : Option String
  pub headers : List StoredHeader

abbrev pub or_root : Option String → String
or_root none = "/"
or_root (some path) = path

unfoldable pub request_head_payload :
    Parts → (container_name : String) → RunConfig → RelayHttpRequestHead
unfolding forwarded
request_head_payload parts container_name run_config = record {
  method = parts.method;
  path = or_root parts.path_and_query;
  headers = forwarded parts.headers;
  container_name = container_name;
  container_port = run_config.container_port;
}

-- `u16::try_from`, then `StatusCode::from_u16`
unfoldable pub status_from : ℕ → ℕ
status_from status =
    if ltb status (2 ^ 16) then (if leb 100 status && leb status 999 then status else 502) else 502

-- one `out_tx.send` and what follows it
abbrev pub send {ℓ} : {A : Type ℓ} → ℕ → A → (ℕ → List A) → List A
send zero message later = []
send (suc room) message later = message ∷ later room

-- the body's chunks, then the final mark; a read that fails is passed over
unfoldable pub feed_body : (room : ℕ) → List Frame → List RequestPart
feed_body room [] = send room (RequestPart.body_chunk last_chunk) (λ _. [])
feed_body room (piece bytes ∷ body) = elim room [
  | zero ↦ []
  | suc left ↦ RequestPart.body_chunk (more bytes) ∷ feed_body left body
]
feed_body room (failure ∷ body) = feed_body room body
feed_body room (trailers ∷ body) = feed_body room body

unfoldable pub spawn_request_feeder :
    (room : ℕ) → RelayHttpRequestHead → List Frame → (is_upgrade : Bool) → List RequestPart
unfolding feed_body
spawn_request_feeder room head body is_upgrade =
    send room (RequestPart.head head) (λ left. if is_upgrade then [] else feed_body left body)

-- What a connection that has switched protocols gives: each read, `none` where it fails.
abbrev pub Reads : Type 0
Reads = List (Option ByteVec)

unfoldable pub read_browser : (room : ℕ) → Reads → List RequestPart
read_browser room [] = send room (RequestPart.body_chunk last_chunk) (λ _. [])
read_browser room (none ∷ reads) = send room (RequestPart.body_chunk last_chunk) (λ _. [])
read_browser room (some [] ∷ reads) = send room (RequestPart.body_chunk last_chunk) (λ _. [])
read_browser room (some (b ∷ bytes) ∷ reads) = elim room [
  | zero ↦ []
  | suc left ↦ RequestPart.body_chunk (more (b ∷ bytes)) ∷ read_browser left reads
]

-- What the browser is written, with `accepts` writes that succeed.
unfoldable pub write_browser : (accepts : ℕ) → List ResponsePart → List ByteVec
write_browser accepts [] = []
write_browser accepts (ResponsePart.head _ ∷ later) = []
write_browser accepts (ResponsePart.error _ ∷ later) = []
write_browser accepts (ResponsePart.body_chunk chunk ∷ later) = elim chunk.payload [
  | [] ↦ if chunk.is_final then [] else write_browser accepts later
  | b ∷ bytes ↦ elim accepts [
    | zero ↦ []
    | suc left ↦ (b ∷ bytes) ∷ (if chunk.is_final then [] else write_browser left later)
  ]
]

unfoldable pub response_body_stream : List ResponsePart → List ByteVec
response_body_stream [] = []
response_body_stream (ResponsePart.head _ ∷ later) = []
response_body_stream (ResponsePart.error _ ∷ later) = []
response_body_stream (ResponsePart.body_chunk chunk ∷ later) =
    if chunk.is_final then [] else chunk.payload ∷ response_body_stream later

-- What the browser gets. `Response::builder` refuses some headers.
pub data RunResponse : Type 0 where
  bad_gateway : RunResponse
  relayed : (status : ℕ) → List HttpHeader → List ByteVec → RunResponse
  switched : List HttpHeader → RunResponse

unfoldable pub upgrade_response :
    (builds : List HttpHeader → Bool) → RelayHttpResponseHead → RunResponse
upgrade_response builds head = if builds head.headers then switched head.headers else bad_gateway

-- The end of `serve_run_mode`: the first reply and those after it.
unfoldable pub relayed_response :
    (builds : List HttpHeader → Bool) → (is_upgrade : Bool) → List ResponsePart → RunResponse
unfolding upgrade_response status_from response_body_stream
relayed_response builds is_upgrade [] = bad_gateway
relayed_response builds is_upgrade (ResponsePart.body_chunk _ ∷ later) = bad_gateway
relayed_response builds is_upgrade (ResponsePart.error _ ∷ later) = bad_gateway
relayed_response builds is_upgrade (ResponsePart.head head ∷ later) =
    if is_upgrade && (status_from head.status == 101)
    then upgrade_response builds head
    else if builds head.headers
    then relayed (status_from head.status) head.headers (response_body_stream later)
    else bad_gateway

-- The messages that go to the agent, and the response, given what the agent replies to them; `none`
-- for an agent that is not connected.
unfoldable pub serve_run_mode :
    (builds : List HttpHeader → Bool)
    → (room : ℕ) → (replies : Option (List RequestPart → List ResponsePart))
    → (container_name : String) → RunConfig
    → Parts
    → (body : List Frame) → RunResponse
unfolding is_upgrade_request request_head_payload spawn_request_feeder relayed_response
serve_run_mode builds room none container_name run_config parts body = bad_gateway
serve_run_mode builds room (some replies) container_name run_config parts body =
    let is_upgrade = is_upgrade_request parts.headers in
    let head = request_head_payload parts container_name run_config in
    relayed_response builds is_upgrade (replies (spawn_request_feeder room head body is_upgrade))
