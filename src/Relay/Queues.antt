-- ===== src/Relay/Queues.antt =====
-- berth-agent/src/relay.rs: the queues of the relays in flight, as messages arrive for many requests.
use mathlib.Core.Path.{subst}
use mathlib.Core.List.{append_assoc, append-nil}
use oxde.Prelude.{
  ℕ, ◌≡◌, refl, sym, ap, ◌∙◌, true, false, Option, none, some, List, [], ◌∷◌, ◌++◌, if◌then◌else◌,
  map, nat_key, ◌==◌, ==_iff, Bool-cases, Option-cases, inl, inr,
}
use oxde.Relay.{Chunk, RelayHttpRequestHead, RequestPart}
use oxde.Relay.Agent.{InFlightRelays, route_relay_message, relay_done}

-- What happens to the relays in flight: a message arrives, or a task ends.
pub data RelayEvent : Type 0 where
  arrives : (request_id : ℕ) → (message : Option RequestPart) → RelayEvent
  ends : (request_id : ℕ) → RelayEvent

abbrev pub after_event : InFlightRelays → RelayEvent → InFlightRelays
after_event in_flight (arrives id message) = route_relay_message in_flight id message
after_event in_flight (ends id) = relay_done in_flight id

unfoldable pub after : InFlightRelays → List RelayEvent → InFlightRelays
after in_flight [] = in_flight
after in_flight (event ∷ events) = after (after_event in_flight event) events

-- The messages of one request, among those of the others.
abbrev pub messages_of : (request_id : ℕ) → List RelayEvent → List RequestPart
messages_of id [] = []
messages_of id (arrives other none ∷ events) = messages_of id events
messages_of id (arrives other (some part) ∷ events) =
    let rest = messages_of id events in if other == id then part ∷ rest else rest
messages_of id (ends other ∷ events) = messages_of id events

-- The task of a request does not end among these.
abbrev pub IsServed : (request_id : ℕ) → List RelayEvent → Type 0
IsServed id [] = Unit
IsServed id (arrives other message ∷ events) = IsServed id events
IsServed id (ends other ∷ events) = ((other == id) ≡ false) × IsServed id events

-- What a sequence of chunks begins with.
chunk_first :
    (part : RequestPart) (rest : List RequestPart) (chunks : List Chunk)
    → part ∷ rest ≡ map RequestPart.body_chunk chunks
    → (chunk : Chunk) × (later : List Chunk) × (part ≡ RequestPart.body_chunk chunk)
      × (chunks ≡ chunk ∷ later)
      × (rest ≡ map RequestPart.body_chunk later)
chunk_first part rest [] e = cc
chunk_first part rest (chunk ∷ chunks) e = (chunk, chunks, cc, refl, cc)

route-other :
    (in_flight : InFlightRelays) (id other : ℕ) (message : Option RequestPart)
    → (other == id) ≡ false
    → route_relay_message in_flight other message id ≡ in_flight id
unfolding route_relay_message
route-other in_flight id other none e = refl
route-other in_flight id other (some (RequestPart.head h)) e = rw e refl
route-other in_flight id other (some (RequestPart.body_chunk c)) e =
    elim (Option-cases (in_flight other)) [
      | inl none_there ↦ rw (none_there, route_relay_message) refl
      | inr (queue, there) ↦ rw (there, route_relay_message, e) refl
    ]

route-chunk :
    (in_flight : InFlightRelays) (id : ℕ) (chunk : Chunk) (queue : List Chunk)
    → in_flight id ≡ some queue
    → route_relay_message in_flight id (some (RequestPart.body_chunk chunk)) id
      ≡ some (queue ++ chunk ∷ [])
unfolding route_relay_message
route-chunk in_flight id chunk queue here =
    let same : (id == id) ≡ true = (==_iff id id).1 refl in
    rw (here, route_relay_message, same) refl

route-head :
    (in_flight : InFlightRelays) (id : ℕ) (head : RelayHttpRequestHead)
    → route_relay_message in_flight id (some (RequestPart.head head)) id ≡ some []
unfolding route_relay_message
route-head in_flight id head = let same : (id == id) ≡ true = (==_iff id id).1 refl in rw same refl

-- A queue gets its own chunks, whatever arrives for other requests.
after-queue :
    (id : ℕ) (events : List RelayEvent) (in_flight : InFlightRelays) (queue chunks : List Chunk)
    → in_flight id ≡ some queue
    → messages_of id events ≡ map RequestPart.body_chunk chunks
    → IsServed id events
    → after in_flight events id ≡ some (queue ++ chunks)
unfolding after
after-queue id [] in_flight queue [] here sent served = rw append-nil here
after-queue id [] in_flight queue (chunk ∷ chunks) here sent served = cc
after-queue id (ends other ∷ events) in_flight queue chunks here sent served =
    after-queue id events (relay_done in_flight other) queue chunks
      (unfold relay_done in rw (served.0) here) sent (served.1)
after-queue id (arrives other none ∷ events) in_flight queue chunks here sent served =
    after-queue id events (route_relay_message in_flight other none) queue chunks
      (unfold route_relay_message in here) sent served
after-queue id (arrives other (some part) ∷ events) in_flight queue chunks here sent served =
    let next = route_relay_message in_flight other (some part) in
    elim (Bool-cases (other == id)) [
      | inr e ↦
          after-queue id events next queue chunks
            (route-other in_flight id other (some part) e ∙ here) (rw e at sent) served
      | inl e ↦
          let (chunk, later, is_chunk, split_up, rest) =
            chunk_first part (messages_of id events) chunks (rw e at sent) in
          let same : other ≡ id = (==_iff other id).0 e in
          let arrived : next id ≡ some (queue ++ chunk ∷ []) =
            subst (λ n. route_relay_message in_flight n (some part) id ≡ some (queue ++ chunk ∷ []))
              (sym same) (rw is_chunk (route-chunk in_flight id chunk queue here)) in
          subst (λ all. after next events id ≡ some (queue ++ all)) (sym split_up)
            (after-queue id events next (queue ++ chunk ∷ []) later arrived rest served
              ∙ ap some (append_assoc queue (chunk ∷ []) later))
    ]

-- The same from a request's head on, whatever was in flight before.
pub after-begun :
    (id : ℕ) (events : List RelayEvent) (in_flight : InFlightRelays) (head : RelayHttpRequestHead)
    (chunks : List Chunk)
    → messages_of id events ≡ RequestPart.head head ∷ map RequestPart.body_chunk chunks
    → IsServed id events
    → after in_flight events id ≡ some chunks
unfolding after
after-begun id [] in_flight head chunks sent served = cc
after-begun id (ends other ∷ events) in_flight head chunks sent served =
    after-begun id events (relay_done in_flight other) head chunks sent (served.1)
after-begun id (arrives other none ∷ events) in_flight head chunks sent served =
    after-begun id events (route_relay_message in_flight other none) head chunks sent served
after-begun id (arrives other (some part) ∷ events) in_flight head chunks sent served =
    let next = route_relay_message in_flight other (some part) in
    elim (Bool-cases (other == id)) [
      | inr e ↦ after-begun id events next head chunks (rw e at sent) served
      | inl e ↦
          let begun : part ∷ messages_of id events
              ≡ RequestPart.head head ∷ map RequestPart.body_chunk chunks =
            rw e at sent in
          let is_head : part ≡ RequestPart.head head = cc in
          let rest : messages_of id events ≡ map RequestPart.body_chunk chunks = cc in
          let same : other ≡ id = (==_iff other id).0 e in
          after-queue id events next [] chunks (rw (same, is_head) (route-head in_flight id head))
            rest served
    ]
