-- ===== src/Relay/RoundTrip.antt =====
-- berth-hub/src/routes/apps.rs and berth-agent/src/relay.rs together: a request's body on its way to
-- the container, and the response's on its way back.
use oxde.Prelude.{
  ℕ, zero, suc, ◌+◌, ◌<◌, ◌≡◌, refl, ap, ◌∙◌, String, Bool, true, false, some, List, [], ◌∷◌, ◌++◌,
  map, length, nat_key, arith,
}
use oxde.Prelude.Result.{ok}
use oxde.Models.{RunConfig}
use oxde.Relay.{
  ByteVec, HttpHeader, Chunk, RelayHttpRequestHead, RequestPart, ResponsePart, Frame, piece,
  trailers, failure, last_chunk, more, forwarded,
}
use oxde.Relay.Hub
use oxde.Relay.Hub.{
  Parts, RunResponse, relayed, feed_body, spawn_request_feeder, serve_run_mode,
  response_body_stream, relayed_response, request_head_payload, status_from, read_browser,
  write_browser,
}
use oxde.Relay.Agent
use oxde.Relay.Queues.{RelayEvent, after, messages_of, IsServed, after-begun}
use oxde.Relay.Agent.{
  InFlightRelays, Client, ContainerRequest, ContainerResponse, route_relay_message, relay_done,
  request_body, stream_response_body, serve_relayed_request, proxy_to_ip, proxy_plain,
  response_head_payload, write_container, read_container,
}

abbrev pub bytes_of : List ByteVec → ByteVec
bytes_of [] = []
bytes_of (bytes ∷ later) = bytes ++ bytes_of later

-- The data of a body, in order, of which what cannot be read is left out.
abbrev pub pieces : List Frame → List ByteVec
pieces [] = []
pieces (piece bytes ∷ body) = bytes ∷ pieces body
pieces (trailers ∷ body) = pieces body
pieces (failure ∷ body) = pieces body

-- The data of a body before the first failure.
abbrev pub unbroken : List Frame → List ByteVec
unbroken [] = []
unbroken (piece bytes ∷ body) = bytes ∷ unbroken body
unbroken (trailers ∷ body) = unbroken body
unbroken (failure ∷ body) = []

abbrev fed : List ByteVec → List Chunk
fed [] = last_chunk ∷ []
fed (bytes ∷ later) = more bytes ∷ fed later

feed_body-fed :
    (room : ℕ) (body : List Frame)
    → length body < room
    → feed_body room body ≡ map RequestPart.body_chunk (fed (pieces body))
unfolding feed_body
feed_body-fed zero body small = elim small [ ]
feed_body-fed (suc room) [] small = refl
feed_body-fed (suc room) (piece bytes ∷ body) small =
    ap (λ rest. RequestPart.body_chunk (more bytes) ∷ rest) (feed_body-fed room body (omega arith))
feed_body-fed (suc room) (trailers ∷ body) small = feed_body-fed (suc room) body (omega arith)
feed_body-fed (suc room) (failure ∷ body) small = feed_body-fed (suc room) body (omega arith)

request_body-fed : (body : List ByteVec) → request_body (fed body) ≡ body ++ [] ∷ []
unfolding request_body
request_body-fed [] = refl
request_body-fed (bytes ∷ body) = ap (λ rest. bytes ∷ rest) (request_body-fed body)

bytes_of-marked : (body : List ByteVec) → bytes_of (body ++ [] ∷ []) ≡ bytes_of body
bytes_of-marked [] = refl
bytes_of-marked (bytes ∷ body) = ap (λ rest. bytes ++ rest) (bytes_of-marked body)

spawn_request_feeder-fed :
    (room : ℕ) (head : RelayHttpRequestHead) (body : List Frame)
    → length body + 1 < room
    → spawn_request_feeder room head body false
      ≡ RequestPart.head head ∷ map RequestPart.body_chunk (fed (pieces body))
unfolding spawn_request_feeder
spawn_request_feeder-fed zero head body small = elim small [ ]
spawn_request_feeder-fed (suc room) head body small =
    ap (λ rest. RequestPart.head head ∷ rest) (feed_body-fed room body (omega arith))

-- A request's body arrives: whatever else the agent is sent in between, and whatever was in flight
-- before, the body that the container is sent for a relayed request has the bytes that the hub read
-- from the request's, in order, if no queue closes before the end.
pub relayed_body_round_trip :
    (id : ℕ) (events : List RelayEvent) (in_flight : InFlightRelays) (room : ℕ)
    (head : RelayHttpRequestHead) (body : List Frame)
    → length body + 1 < room
    → messages_of id events ≡ spawn_request_feeder room head body false
    → IsServed id events
    → (queue : List Chunk) × (after in_flight events id ≡ some queue)
      × (bytes_of (request_body queue) ≡ bytes_of (pieces body))
relayed_body_round_trip id events in_flight room head body small sent served = (
  fed (pieces body),
  after-begun id events in_flight head (fed (pieces body))
      (sent ∙ spawn_request_feeder-fed room head body small) served,
  ap bytes_of (request_body-fed (pieces body)) ∙ bytes_of-marked (pieces body),
)

response_body_stream-unbroken :
    (body : List Frame) → response_body_stream (stream_response_body body) ≡ unbroken body
unfolding response_body_stream stream_response_body
response_body_stream-unbroken [] = refl
response_body_stream-unbroken (piece bytes ∷ body) =
    ap (λ rest. bytes ∷ rest) (response_body_stream-unbroken body)
response_body_stream-unbroken (trailers ∷ body) = response_body_stream-unbroken body
response_body_stream-unbroken (failure ∷ body) = refl

-- What the agent replies to the messages of one request.
abbrev chunks_of : List RequestPart → List Chunk
chunks_of [] = []
chunks_of (RequestPart.head _ ∷ parts) = chunks_of parts
chunks_of (RequestPart.body_chunk chunk ∷ parts) = chunk ∷ chunks_of parts

abbrev pub served : Client → (ip : String) → List RequestPart → List ResponsePart
served client ip [] = []
served client ip (RequestPart.body_chunk _ ∷ parts) = []
served client ip (RequestPart.head head ∷ parts) =
    serve_relayed_request client (ok (some ip)) head (chunks_of parts)

chunks_of-map : (chunks : List Chunk) → chunks_of (map RequestPart.body_chunk chunks) ≡ chunks
chunks_of-map [] = refl
chunks_of-map (chunk ∷ chunks) = ap (λ rest. chunk ∷ rest) (chunks_of-map chunks)

-- The request that the container should be sent.
abbrev pub relayed_request : Parts → (uri method : String) → List Frame → ContainerRequest
relayed_request parts uri method body = record {
  method = method;
  uri = uri;
  headers = forwarded parts.headers;
  body = pieces body ++ [] ∷ [];
}

-- What the agent answers to a request that it takes for a plain one.
serve_relayed_request-answer :
    (client : Client) (ip : String) (head : RelayHttpRequestHead) (queue : List Chunk)
    {uri method : String} {response : ContainerResponse}
    → Agent.is_upgrade_request head.headers ≡ false
    → client.parse_uri ip head.container_port head.path ≡ ok uri
    → client.parse_method head.method ≡ ok method
    → client.builds head.headers ≡ ok tt
    → client.request
        (record { method = method; uri = uri; headers = head.headers; body = request_body queue })
      ≡ ok response
    → serve_relayed_request client (ok (some ip)) head queue ≡ Agent.answer response
unfolding serve_relayed_request proxy_to_ip proxy_plain
serve_relayed_request-answer client ip head queue plain reads names sends answers = ground arith

relayed_response-answer :
    (builds : List HttpHeader → Bool) (response : ContainerResponse)
    → builds (forwarded response.headers) ≡ true
    → relayed_response builds false (Agent.answer response)
      ≡ relayed (status_from response.status) (forwarded response.headers) (unbroken response.body)
unfolding relayed_response response_head_payload
relayed_response-answer builds response built =
    rw (built, response_body_stream-unbroken response.body) refl

module _ (client : Client) (builds : List HttpHeader → Bool) (room : ℕ) (ip container : String)
    (cfg : RunConfig) (parts : Parts) (body : List Frame) {uri method : String}
    {response : ContainerResponse} where
  -- A relayed request end to end: if neither side takes it for an upgrade, it is read by the agent's
  -- client, and the container answers the request with the browser's headers that are text and its
  -- body, then the browser gets that answer: its status, the headers that are text, and its body up
  -- to the first read that failed.
  pub relay_end_to_end :
      length body + 1 < room
      → Hub.is_upgrade_request parts.headers ≡ false
      → Agent.is_upgrade_request (forwarded parts.headers) ≡ false
      → client.parse_uri ip cfg.container_port (Hub.or_root parts.path_and_query) ≡ ok uri
      → client.parse_method parts.method ≡ ok method
      → client.builds (forwarded parts.headers) ≡ ok tt
      → client.request (relayed_request parts uri method body) ≡ ok response
      → builds (forwarded response.headers) ≡ true
      → serve_run_mode builds room (some (served client ip)) container cfg parts body
        ≡ relayed
            (status_from response.status)
            (forwarded response.headers)
            (unbroken response.body)
  unfolding serve_run_mode
  relay_end_to_end small plain plain' reads names sends answers built =
      let head = request_head_payload parts container cfg in
      rw
        (
          plain,
          spawn_request_feeder-fed room head body small,
          chunks_of-map (fed (pieces body)),
          serve_relayed_request-answer client ip head (fed (pieces body)) {response = response}
              (unfold request_head_payload in plain') (unfold request_head_payload in reads)
              (unfold request_head_payload in names) (unfold request_head_payload in sends)
              (unfold request_head_payload in rw (request_body-fed (pieces body)) answers),
        )
        (relayed_response-answer builds response built)
