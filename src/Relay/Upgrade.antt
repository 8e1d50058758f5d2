-- ===== src/Relay/Upgrade.antt =====
-- berth-hub/src/routes/apps.rs and berth-agent/src/relay.rs: which requests each side takes for an
-- upgrade, and the bytes of a connection that has switched protocols.
use mathlib.Core.Path.{subst}
use mathlib.Core.List.{Memᴰ}
use oxde.Prelude.{
  ℕ, zero, suc, ◌≤◌, ◌<◌, ◌≡◌, refl, ap, ◌∙◌, String, Bool, true, false, ◌&&◌, Option, none, some,
  List, [], ◌∷◌, map, length, any, arith, str_eq,
}
use oxde.Prelude.Text.{is_some}
use oxde.Http.{text, opaque}
use oxde.Relay.{
  RelayHttpRequestHead, ByteVec, HttpHeader, Chunk, RequestPart, StoredHeader, forwarded,
  names_upgrade, eq_ignore_ascii_case, last_chunk, more,
}
use oxde.Relay.Hub
use oxde.Models.{RunConfig}
use oxde.Relay.Hub.{
  Parts, request_head_payload, value_named, says_upgrade, read_browser, write_browser,
}
use oxde.Relay.Agent
use oxde.Relay.Agent.{Client, proxy_to_ip, read_container, write_container}

-- `http` keeps the names of headers in lower case; these are all text.
abbrev pub IsPlain : List StoredHeader → Type 0
IsPlain [] = Unit
IsPlain ((name, text value) ∷ headers) =
    (eq_ignore_ascii_case name "upgrade" ≡ str_eq name "upgrade")
    × (eq_ignore_ascii_case name "connection" ≡ str_eq name "connection")
    × IsPlain headers
IsPlain ((name, opaque) ∷ headers) = ⊥

abbrev has_upgrade : List HttpHeader → Bool
has_upgrade headers = any (λ header. eq_ignore_ascii_case header.name "upgrade") headers

abbrev connection_upgrades : List HttpHeader → Bool
connection_upgrades headers =
    any (λ header. eq_ignore_ascii_case header.name "connection" && names_upgrade header.value)
      headers

has_upgrade-forwarded :
    (headers : List StoredHeader)
    → IsPlain headers
    → is_some (value_named headers "upgrade") ≡ has_upgrade (forwarded headers)
unfolding forwarded
has_upgrade-forwarded [] plain = refl
has_upgrade-forwarded ((name, text value) ∷ headers) plain =
    ground (arith, plain.0, has_upgrade-forwarded headers (plain.2))
has_upgrade-forwarded ((name, opaque) ∷ headers) plain = absurd plain

connection_upgrades-forwarded :
    (headers : List StoredHeader)
    → IsPlain headers
    → says_upgrade (value_named headers "connection") ≡ true
    → connection_upgrades (forwarded headers) ≡ true
unfolding forwarded
connection_upgrades-forwarded [] plain says = cc
connection_upgrades-forwarded ((name, text value) ∷ headers) plain says =
    ground (arith, plain.1, connection_upgrades-forwarded headers (plain.2))
connection_upgrades-forwarded ((name, opaque) ∷ headers) plain says = absurd plain

-- If all headers are text, the agent takes every request for an upgrade that the hub does.
pub upgrade_reaches_agent :
    (headers : List StoredHeader)
    → IsPlain headers
    → Hub.is_upgrade_request headers ≡ true
    → Agent.is_upgrade_request (forwarded headers) ≡ true
unfolding Hub.is_upgrade_request Agent.is_upgrade_request
upgrade_reaches_agent headers plain asked =
    ground (arith, has_upgrade-forwarded headers plain, connection_upgrades-forwarded headers plain)

-- An upgrade is sent with no body.
proxy_to_ip-upgrade :
    (client : Client) (ip : String) (head : RelayHttpRequestHead) (queue other : List Chunk)
    → Agent.is_upgrade_request head.headers ≡ true
    → proxy_to_ip client ip head queue ≡ proxy_to_ip client ip head other
unfolding proxy_to_ip
proxy_to_ip-upgrade client ip head queue other upgrade = ground arith

-- A header with a text reaches the agent.
any-forwarded :
    (f : HttpHeader → Bool) (name value : String) (headers : List StoredHeader)
    → Memᴰ (name, text value) headers
    → f (record { name = name; value = value }) ≡ true
    → any f (forwarded headers) ≡ true
unfolding forwarded
any-forwarded f name value [] there holds = elim there [ ]
any-forwarded f name value (header ∷ headers) (Memᴰ.head e) holds =
    subst (λ h. any f (forwarded (h ∷ headers)) ≡ true) e (rw holds refl)
any-forwarded f name value ((n, text v) ∷ headers) (Memᴰ.tail rest) holds =
    let later = any-forwarded f name value headers rest holds in ground arith
any-forwarded f name value ((n, opaque) ∷ headers) (Memᴰ.tail rest) holds =
    any-forwarded f name value headers rest holds

-- A request with an `Upgrade` header whose first `Connection` header does not name the upgrade, while
-- another one does, is a plain request to the hub, and an upgrade to the agent, which gives the
-- container the same request whatever the body was that the hub sent.
pub repeated_connection_loses_body :
    (client : Client) (ip : String) (parts : Parts) (cfg : RunConfig) (container : String)
    (first second protocol : String) (queue : List Chunk)
    → Memᴰ ("upgrade", text protocol) parts.headers
    → value_named parts.headers "connection" ≡ some (text first)
    → names_upgrade first ≡ false
    → Memᴰ ("connection", text second) parts.headers
    → names_upgrade second ≡ true
    → (Hub.is_upgrade_request parts.headers ≡ false)
      × (Agent.is_upgrade_request (request_head_payload parts container cfg).headers ≡ true)
      × (proxy_to_ip client ip (request_head_payload parts container cfg) queue
          ≡ proxy_to_ip client ip (request_head_payload parts container cfg) [])
unfolding Hub.is_upgrade_request request_head_payload Agent.is_upgrade_request
repeated_connection_loses_body client ip parts cfg container first second protocol queue asks
      is_first plain listed names =
    let hub : Hub.is_upgrade_request parts.headers ≡ false = rw (is_first, plain) (ground arith) in
    let asked : has_upgrade (forwarded parts.headers) ≡ true =
      any-forwarded (λ header. eq_ignore_ascii_case header.name "upgrade") "upgrade" protocol
        parts.headers asks refl in
    let named : connection_upgrades (forwarded parts.headers) ≡ true =
      any-forwarded
        (λ header. eq_ignore_ascii_case header.name "connection" && names_upgrade header.value)
        "connection" second parts.headers listed (rw names refl) in
    let agent : Agent.is_upgrade_request (forwarded parts.headers) ≡ true =
      rw (asked, named) refl in
    (
      hub,
      agent,
      proxy_to_ip-upgrade client ip (request_head_payload parts container cfg) queue [] agent,
    )

-- The bytes read from one side of a connection that has switched protocols, up to its end.
abbrev pub until_end : List (Option ByteVec) → List ByteVec
until_end [] = []
until_end (none ∷ reads) = []
until_end (some [] ∷ reads) = []
until_end (some (b ∷ bytes) ∷ reads) = (b ∷ bytes) ∷ until_end reads

abbrev sent_on : List ByteVec → List Chunk
sent_on [] = last_chunk ∷ []
sent_on (bytes ∷ later) = more bytes ∷ sent_on later

read_browser-sent_on :
    (room : ℕ) (reads : List (Option ByteVec))
    → length reads < room
    → read_browser room reads ≡ map RequestPart.body_chunk (sent_on (until_end reads))
unfolding read_browser
read_browser-sent_on zero reads small = elim small [ ]
read_browser-sent_on (suc room) [] small = refl
read_browser-sent_on (suc room) (none ∷ reads) small = refl
read_browser-sent_on (suc room) (some [] ∷ reads) small = refl
read_browser-sent_on (suc room) (some (b ∷ bytes) ∷ reads) small =
    ap (λ rest. RequestPart.body_chunk (more (b ∷ bytes)) ∷ rest)
      (read_browser-sent_on room reads (omega arith))

write_container-sent_on :
    (accepts : ℕ) (reads : List (Option ByteVec))
    → length reads ≤ accepts
    → write_container accepts (sent_on (until_end reads)) ≡ until_end reads
unfolding write_container
write_container-sent_on accepts [] small = refl
write_container-sent_on accepts (none ∷ reads) small = refl
write_container-sent_on accepts (some [] ∷ reads) small = refl
write_container-sent_on zero (some (b ∷ bytes) ∷ reads) small = elim small [ ]
write_container-sent_on (suc left) (some (b ∷ bytes) ∷ reads) small =
    ap (λ rest. (b ∷ bytes) ∷ rest) (write_container-sent_on left reads (omega arith))

map_body_chunk_inj :
    (xs ys : List Chunk) → map RequestPart.body_chunk xs ≡ map RequestPart.body_chunk ys → xs ≡ ys
map_body_chunk_inj [] [] e = refl
map_body_chunk_inj [] (y ∷ ys) e = cc
map_body_chunk_inj (x ∷ xs) [] e = cc
map_body_chunk_inj (x ∷ xs) (y ∷ ys) e = let rest = map_body_chunk_inj xs ys (cc) in cc

-- Once a connection has switched protocols, what the browser sends until it ends is what the
-- container is written, piece by piece, while the messages get through and the writes succeed.
pub browser_to_container :
    (room accepts : ℕ) (reads : List (Option ByteVec)) (queue : List Chunk)
    → length reads < room
    → length reads ≤ accepts
    → map RequestPart.body_chunk queue ≡ read_browser room reads
    → write_container accepts queue ≡ until_end reads
browser_to_container room accepts reads queue small enough sent =
    rw
      (map_body_chunk_inj queue (sent_on (until_end reads))
        (sent ∙ read_browser-sent_on room reads small))
      (write_container-sent_on accepts reads enough)

-- The other way.
read_container-write_browser :
    (accepts : ℕ) (reads : List (Option ByteVec))
    → length reads ≤ accepts
    → write_browser accepts (read_container reads) ≡ until_end reads
unfolding write_browser read_container
read_container-write_browser accepts [] small = refl
read_container-write_browser accepts (none ∷ reads) small = refl
read_container-write_browser accepts (some [] ∷ reads) small = refl
read_container-write_browser zero (some (b ∷ bytes) ∷ reads) small = elim small [ ]
read_container-write_browser (suc left) (some (b ∷ bytes) ∷ reads) small =
    ap (λ rest. (b ∷ bytes) ∷ rest) (read_container-write_browser left reads (omega arith))
