-- ===== src/AgentLink.antt =====
-- berth-hub/src/agent_link.rs: one agent's session, as the maps that its calls share. A one-shot
-- channel is the outcome that its receiver sees, once there is one: a payload, or that the sender
-- was dropped. The order in which tasks take the locks is the order of the operations.
pub mod Steps
pub mod Answers
pub mod Tests
use oxde.Prelude.{
  ℕ, ◌+◌, ◌%◌, ◌^◌, Bool, true, false, Option, none, some, Map, empty_map, insert, remove, nat_key,
  ◌==◌, if◌then◌else◌,
}
use oxde.Prelude.Text.{is_some}
use oxde.Prelude.Result.{Result, ok, err}
use oxde.Error.{AppError, AppResult}

pub data Outcome (P : Type 0) : Type 0 where
  received : P → Outcome P
  dropped : Outcome P

-- `Inner`, with the outcomes of the one-shot receivers; `outbound` tells whether a sender is set.
pub record Link (P : Type 0) : Type 0 where
  pub next_request_id : ℕ
  pub pending : Map ℕ (Unit {0})
  pub streams : Map ℕ (Unit {0})
  pub outbound : Bool
  pub outcomes : Map ℕ (Outcome P)

-- Where `resolve` sends a payload.
pub data Delivery (P : Type 0) : Type 0 where
  to_stream to_caller : (request_id : ℕ) → P → Delivery P
  nowhere : Delivery P

module _ {P : Type 0} where
  abbrev pub empty_link : Link P
  empty_link = record {
    next_request_id = 1;
    pending = empty_map;
    streams = empty_map;
    outbound = false;
    outcomes = empty_map;
  }

  unfoldable pub set_outbound : Link P → Link P
  set_outbound link = record link { outbound = true }

  -- the outcomes after senders are dropped: those of `gone`
  abbrev pub drop_senders : (gone : Map ℕ (Unit {0})) → Map ℕ (Outcome P) → Map ℕ (Outcome P)
  drop_senders gone outcomes id = if is_some (gone id) then some dropped else outcomes id

  unfoldable pub resolve_caller :
      Link P → (request_id : ℕ) → P → Option (Unit {0}) → Link P × Delivery P
  resolve_caller link request_id payload none = (link, nowhere)
  resolve_caller link request_id payload (some _) = (
    record link {
      pending = remove link.pending request_id;
      outcomes = insert link.outcomes request_id (received payload);
    },
    to_caller request_id payload,
  )

  unfoldable pub resolve_stream :
      Link P → (request_id : ℕ) → P → Option (Unit {0}) → Link P × Delivery P
  unfolding resolve_caller
  resolve_stream link request_id payload none =
      resolve_caller link request_id payload (link.pending request_id)
  resolve_stream link request_id payload (some _) = (link, to_stream request_id payload)

  unfoldable pub resolve : Link P → (request_id : ℕ) → (payload : Option P) → Link P × Delivery P
  unfolding resolve_stream
  resolve link request_id none = (link, nowhere)
  resolve link request_id (some payload) =
      resolve_stream link request_id payload (link.streams request_id)

  unfoldable pub end_stream : Link P → (request_id : ℕ) → Link P
  end_stream link request_id = record link { streams = remove link.streams request_id }

  unfoldable pub fail_all_pending : Link P → Link P
  fail_all_pending link = record link {
    pending = empty_map;
    streams = empty_map;
    outbound = false;
    outcomes = drop_senders link.pending link.outcomes;
  }

  -- `fetch_add` on a 64-bit counter
  abbrev pub take_id : Link P → Link P
  take_id link = record link { next_request_id = (link.next_request_id + 1) % 2 ^ 64 }

  -- the beginning of `call_streamed`: an id and its one-shot channel
  unfoldable pub begin_call : Link P → Link P
  begin_call link = record (take_id link) { pending = insert link.pending link.next_request_id tt }

  -- the beginning of `call_streaming_reply` and `call_bidi_streamed`
  unfoldable pub begin_stream : Link P → Link P
  begin_stream link = record (take_id link) {
    streams = insert link.streams link.next_request_id tt;
  }

  -- what `outbound` and `send` do when there is no agent to send to
  unfoldable pub give_up : Link P → (request_id : ℕ) → Link P
  give_up link request_id = record link {
    pending = remove link.pending request_id;
    streams = remove link.streams request_id;
    outcomes =
        if is_some (link.pending request_id)
        then insert link.outcomes request_id dropped
        else link.outcomes;
  }

  unfoldable pub outbound : Link P → (request_id : ℕ) → Link P × AppResult (Unit {0})
  outbound link request_id =
      if link.outbound
      then (link, ok tt)
      else (give_up link request_id, err AppError.agent_unavailable)

  -- the end of `call_streamed` when its time is over
  unfoldable pub time_out : Link P → (request_id : ℕ) → Link P × AppResult P
  time_out link request_id = (
    record link {
      pending = remove link.pending request_id;
      outcomes =
          if is_some (link.pending request_id)
          then insert link.outcomes request_id dropped
          else link.outcomes;
    },
    err AppError.agent_timeout,
  )

  -- what `call_streamed` returns when its receiver has an outcome
  unfoldable pub call_result : Outcome P → AppResult P
  call_result (received payload) = ok payload
  call_result dropped = err AppError.agent_unavailable
