-- ===== src/Relay/Tests.antt =====
-- The relay on a concrete request.
use mathlib.Core.List.{Memᴰ}
use oxde.Http.{opaque}
use oxde.Prelude.{◌≡◌, refl, true, false, some, none, List, [], ◌∷◌, empty_map, arith}
use oxde.Prelude.Result.{ok, err}
use oxde.Models.{RunConfig, node24}
use oxde.Http.{text}
use oxde.Relay.{
  piece, failure, RelayHttpRequestHead, RequestPart, Chunk, last_chunk, more, forwarded,
  names_upgrade,
}
use oxde.Relay.Hub
use oxde.Relay.Hub.{
  Parts, relayed, spawn_request_feeder, request_head_payload, serve_run_mode, status_from,
  read_browser,
}
use oxde.Relay.Agent
use oxde.Relay.Agent.{Client, ContainerResponse, request_body, proxy_to_ip, write_container}
use oxde.Relay.Queues.{RelayEvent, arrives, ends, after}
use oxde.Relay.RoundTrip.{relayed_body_round_trip, relay_end_to_end, bytes_of, unbroken, served}
use oxde.Relay.Upgrade.{repeated_connection_loses_body, browser_to_container}

abbrev post : RelayHttpRequestHead
post = record {
  method = "POST";
  path = "/";
  headers = [];
  container_name = "c";
  container_port = 80;
}

-- Two requests at once: the second one's messages arrive between the first one's.
abbrev events : List RelayEvent
events =
    arrives 1 (some (RequestPart.head post))
    ∷ arrives 2 (some (RequestPart.head post))
    ∷ arrives 1 (some (RequestPart.body_chunk (more (7 ∷ []))))
    ∷ arrives 2 (some (RequestPart.body_chunk (more (8 ∷ []))))
    ∷ ends 2
    ∷ arrives 1 (some (RequestPart.body_chunk last_chunk))
    ∷ []

relayed_body_round_trip_example :
    (queue : List Chunk) × (after empty_map events 1 ≡ some queue)
    × (bytes_of (request_body queue) ≡ 7 ∷ [])
unfolding spawn_request_feeder
relayed_body_round_trip_example =
    relayed_body_round_trip 1 events empty_map 9 post (piece (7 ∷ []) ∷ []) (omega arith) refl
      (refl, tt)

abbrev container : Client
container = record {
  parse_uri = λ ip port path. ok path;
  parse_method = ok;
  request = λ r. ok (record {
    status = 200;
    headers = [];
    body = piece (9 ∷ []) ∷ failure ∷ piece (9 ∷ []) ∷ [];
  });
  upgraded = λ r. err "";
  builds = λ headers. ok tt;
}

abbrev parts : Parts
parts = record { method = "GET"; path_and_query = some "/a"; headers = ("host", text "h") ∷ [] }

abbrev cfg : RunConfig
cfg = record { image = node24; install_command = none; start_command = "s"; container_port = 80 }

relay_end_to_end_example :
    serve_run_mode
      (λ headers. true)
      9
      (some (served container "10.0.0.2"))
      "c"
      cfg
      parts
      (piece (1 ∷ []) ∷ [])
    ≡ relayed
        (status_from 200)
        (forwarded [])
        (unbroken (piece (9 ∷ []) ∷ failure ∷ piece (9 ∷ []) ∷ []))
unfolding Hub.is_upgrade_request Agent.is_upgrade_request forwarded
relay_end_to_end_example =
    relay_end_to_end container (λ headers. true) 9 "10.0.0.2" "c" cfg parts (piece (1 ∷ []) ∷ [])
      {uri = "/a"} {method = "GET"}
      {response = record {
        status = 200;
        headers = [];
        body = piece (9 ∷ []) ∷ failure ∷ piece (9 ∷ []) ∷ [];
      }}
      (omega arith) refl refl refl refl refl refl refl

abbrev repeated : Parts
repeated = record {
  method = "POST";
  path_and_query = none;
  headers =
      ("upgrade", text "h2c")
      ∷ ("connection", text "close")
      ∷ ("accept", opaque)
      ∷ ("connection", text "keep-alive, Upgrade")
      ∷ [];
}

repeated_connection_loses_body_example :
    (Hub.is_upgrade_request repeated.headers ≡ false)
    × (Agent.is_upgrade_request (request_head_payload repeated "c" cfg).headers ≡ true)
    × (proxy_to_ip container "ip" (request_head_payload repeated "c" cfg) (last_chunk ∷ [])
        ≡ proxy_to_ip container "ip" (request_head_payload repeated "c" cfg) [])
unfolding names_upgrade
repeated_connection_loses_body_example =
    repeated_connection_loses_body container "ip" repeated cfg "c" "close" "keep-alive, Upgrade"
      "h2c" (last_chunk ∷ []) (Memᴰ.head refl) refl refl
      (Memᴰ.tail (Memᴰ.tail (Memᴰ.tail (Memᴰ.head refl)))) refl

switched_bytes : write_container 5 (more (1 ∷ []) ∷ last_chunk ∷ []) ≡ (1 ∷ []) ∷ []
unfolding read_browser
switched_bytes =
    browser_to_container 5 5 (some (1 ∷ []) ∷ none ∷ some (2 ∷ []) ∷ [])
      (more (1 ∷ []) ∷ last_chunk ∷ []) (omega arith) (omega arith) refl

out_of_range : status_from 65736 ≡ 502
unfolding status_from
out_of_range = refl
