-- ===== src/Relay/Agent.antt =====
-- berth-agent/src/relay.rs: the agent's side of relayed requests. Each request in flight has the
-- queue of the chunks that were routed to it, which its task reads.
use oxde.Prelude.{
  ℕ, zero, suc, String, Bool, ◌&&◌, Option, none, some, List, [], ◌∷◌, ◌++◌, if◌then◌else◌, any,
  Map, insert, remove, nat_key, ◌==◌,
}
use Prim.Native.String.{◌++◌ as append_str}
use oxde.Prelude.Result.{Result, ok, err}
use oxde.Relay.{
  ByteVec, HttpHeader, Chunk, RelayHttpRequestHead, RequestPart, ResponsePart, StoredHeader, Frame,
  piece, trailers, failure, last_chunk, more, forwarded, names_upgrade, eq_ignore_ascii_case,
  AgentError, unavailable,
}

abbrev pub InFlightRelays : Type 0
InFlightRelays = Map ℕ (List Chunk)

abbrev with_chunk : Chunk → List Chunk → List Chunk
with_chunk chunk queue = queue ++ chunk ∷ []

abbrev queue_chunk :
    InFlightRelays → (request_id : ℕ) → Chunk → Option (List Chunk) → InFlightRelays
queue_chunk in_flight request_id chunk none = in_flight
queue_chunk in_flight request_id chunk (some queue) =
    insert in_flight request_id (queue ++ chunk ∷ [])

-- A head registers a fresh queue and starts the task that serves it; a chunk goes to its queue.
unfoldable pub route_relay_message :
    InFlightRelays → (request_id : ℕ) → (message : Option RequestPart) → InFlightRelays
route_relay_message in_flight request_id none = in_flight
route_relay_message in_flight request_id (some (RequestPart.head head)) =
    insert in_flight request_id []
route_relay_message in_flight request_id (some (RequestPart.body_chunk chunk)) =
    queue_chunk in_flight request_id chunk (in_flight request_id)

-- the end of the task that a head started
unfoldable pub relay_done : InFlightRelays → (request_id : ℕ) → InFlightRelays
relay_done in_flight request_id = remove in_flight request_id

-- The frames of the body that the container is sent.
unfoldable pub request_body : List Chunk → List ByteVec
request_body [] = []
request_body (chunk ∷ later) = chunk.payload ∷ (if chunk.is_final then [] else request_body later)

unfoldable pub is_upgrade_request : List HttpHeader → Bool
unfolding names_upgrade
is_upgrade_request headers =
    any (λ header. eq_ignore_ascii_case header.name "upgrade") headers
    && any (λ header. eq_ignore_ascii_case header.name "connection" && names_upgrade header.value)
        headers

unfoldable pub response_head_payload : (status : ℕ) → List StoredHeader → ResponsePart
unfolding forwarded
response_head_payload status headers =
    ResponsePart.head (record { status = status; headers = forwarded headers })

unfoldable pub stream_response_body : List Frame → List ResponsePart
stream_response_body [] = ResponsePart.body_chunk last_chunk ∷ []
stream_response_body (failure ∷ body) = ResponsePart.body_chunk last_chunk ∷ []
stream_response_body (trailers ∷ body) = stream_response_body body
stream_response_body (piece bytes ∷ body) =
    ResponsePart.body_chunk (more bytes) ∷ stream_response_body body

-- The container's side of a connection that has switched protocols; an empty read is its end.
unfoldable pub read_container : List (Option ByteVec) → List ResponsePart
read_container [] = ResponsePart.body_chunk last_chunk ∷ []
read_container (none ∷ reads) = ResponsePart.body_chunk last_chunk ∷ []
read_container (some [] ∷ reads) = ResponsePart.body_chunk last_chunk ∷ []
read_container (some (b ∷ bytes) ∷ reads) =
    ResponsePart.body_chunk (more (b ∷ bytes)) ∷ read_container reads

-- What the container is written, with `accepts` writes that succeed.
unfoldable pub write_container : (accepts : ℕ) → List Chunk → List ByteVec
write_container accepts [] = []
write_container accepts (chunk ∷ later) = elim chunk.payload [
  | [] ↦ if chunk.is_final then [] else write_container accepts later
  | b ∷ bytes ↦ elim accepts [
    | zero ↦ []
    | suc left ↦ (b ∷ bytes) ∷ (if chunk.is_final then [] else write_container left later)
  ]
]

-- What a container answers a request with.
pub record ContainerResponse : Type 0 where
  pub status : ℕ
  pub headers : List StoredHeader
  pub body : List Frame

-- The request that reaches the container; an upgrade is sent with an empty body.
pub record ContainerRequest : Type 0 where
  pub method : String
  pub uri : String
  pub headers : List HttpHeader
  pub body : List ByteVec

-- The container and the HTTP client: how a request's target and method are read, what answers it,
-- and what is read from the connection when the container has switched protocols.
pub record Client : Type 0 where
  pub parse_uri : (ip : String) → (port : ℕ) → (path : String) → Result String String
  pub parse_method : String → Result String String
  pub request : ContainerRequest → Result ContainerResponse String
  pub upgraded : ContainerRequest → Result (List (Option ByteVec)) String
  pub builds : List HttpHeader → Result (Unit {0}) String

abbrev unavailable_error : String → AgentError
unavailable_error message = record { kind = unavailable; message = message }

-- What `?` leaves to send: the messages so far, and the error that ends them.
abbrev Sent : Type 0
Sent = List ResponsePart × Result (Unit {0}) AgentError

abbrev pub answer : ContainerResponse → List ResponsePart
answer response =
    response_head_payload response.status response.headers ∷ stream_response_body response.body

abbrev pumped : ContainerResponse → Result (List (Option ByteVec)) String → Sent
pumped response (err message) =
    (response_head_payload response.status response.headers ∷ [], err (unavailable_error message))
pumped response (ok reads) =
    (response_head_payload response.status response.headers ∷ read_container reads, ok tt)

module _ (client : Client) where
  unfoldable pub proxy_upgrade : ContainerRequest → Sent
  unfolding response_head_payload stream_response_body read_container
  proxy_upgrade request = elim (client.builds request.headers) [
    | err message ↦ ([], err (unavailable_error message))
    | ok _ ↦ elim (client.request request) [
      | err message ↦ ([], err (unavailable_error message))
      | ok response ↦
          if response.status == 101
          then pumped response (client.upgraded request)
          else (answer response, ok tt)
    ]
  ]

  unfoldable pub proxy_plain : ContainerRequest → Sent
  unfolding response_head_payload stream_response_body
  proxy_plain request = elim (client.builds request.headers) [
    | err message ↦ ([], err (unavailable_error message))
    | ok _ ↦ elim (client.request request) [
      | err message ↦ ([], err (unavailable_error message))
      | ok response ↦ (answer response, ok tt)
    ]
  ]

  abbrev container_request :
      RelayHttpRequestHead → String → String → List ByteVec → ContainerRequest
  container_request head uri method body = record {
    method = method;
    uri = uri;
    headers = head.headers;
    body = body;
  }

  unfoldable pub proxy_to_ip : (ip : String) → RelayHttpRequestHead → List Chunk → Sent
  unfolding is_upgrade_request request_body proxy_upgrade proxy_plain
  proxy_to_ip ip head queue = elim (client.parse_uri ip head.container_port head.path) [
    | err message ↦ ([], err (unavailable_error message))
    | ok uri ↦ elim (client.parse_method head.method) [
      | err message ↦ ([], err (unavailable_error message))
      | ok method ↦
          if is_upgrade_request head.headers
          then proxy_upgrade (container_request head uri method [])
          else proxy_plain (container_request head uri method (request_body queue))
    ]
  ]

  -- `proxy` and what `serve_relayed_request` does with its error; `ip` is the container's address
  unfoldable pub serve_relayed_request :
      (ip : Result (Option String) String) → RelayHttpRequestHead → List Chunk → List ResponsePart
  unfolding proxy_to_ip
  serve_relayed_request ip head queue = elim ip [
    | err message ↦ ResponsePart.error (unavailable_error message) ∷ []
    | ok found ↦ elim found [
      | none ↦
          ResponsePart.error (
            unavailable_error
              (append_str "container " (append_str head.container_name " has no IP yet")))
          ∷ []
      | some address ↦
          let (sent, result) = proxy_to_ip address head queue in
          elim result [ ok _ ↦ sent | err failed ↦ sent ++ ResponsePart.error failed ∷ [] ]
    ]
  ]
