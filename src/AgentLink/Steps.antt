-- ===== src/AgentLink/Steps.antt =====
-- The steps of a link of berth-hub/src/agent_link.rs, and the invariant that they keep.
use oxde.Prelude.{
  ℕ, ◌+◌, ◌<◌, ◌^◌, ◌≡◌, refl, ◌⊎◌, inl, inr, Bool, true, false, Option, none, some, Map, insert,
  remove, nat_key, ◌==◌, ==_iff, if◌then◌else◌, arith, Bool-cases, Option-cases,
}
use oxde.Prelude.Text.{is_some}
use oxde.AgentLink.{
  Link, Outcome, received, dropped, set_outbound, resolve, resolve_stream, resolve_caller,
  end_stream, fail_all_pending, begin_call, begin_stream, give_up, time_out,
}

-- Ids in use have been handed out, and a call that waits has no outcome.
pub record IsConsistent {P : Type 0} (link : Link P) : Type 0 where
  pub issued :
      (id : ℕ)
      → (is_some (link.pending id) ≡ true) ⊎ (is_some (link.outcomes id) ≡ true)
      → id < link.next_request_id
  pub waiting : (id : ℕ) → is_some (link.pending id) ≡ true → link.outcomes id ≡ none

-- An operation on the link; the counter does not wrap around.
pub data LinkStep {P : Type 0} : Link P → Link P → Type 0 where
  connected : {link : Link P} → LinkStep link (set_outbound link)
  replied :
      {link : Link P} (id : ℕ) (payload : Option P) → LinkStep link (resolve link id payload).0
  stream_ended : {link : Link P} (id : ℕ) → LinkStep link (end_stream link id)
  session_failed : {link : Link P} → LinkStep link (fail_all_pending link)
  call_begun : {link : Link P} → link.next_request_id + 1 < 2 ^ 64 → LinkStep link (begin_call link)
  stream_begun :
      {link : Link P} → link.next_request_id + 1 < 2 ^ 64 → LinkStep link (begin_stream link)
  given_up : {link : Link P} (id : ℕ) → LinkStep link (give_up link id)
  timed_out : {link : Link P} (id : ℕ) → LinkStep link (time_out link id).0

module _ {P : Type 0} where
  -- a call's sender leaves the map, and its receiver sees `o`
  abbrev settled : Link P → Map ℕ (Unit {0}) → ℕ → Outcome P → Link P
  settled link streams id o = record link {
    pending = remove link.pending id;
    streams = streams;
    outcomes = insert link.outcomes id o;
  }

  settled-IsConsistent :
      (link : Link P) (streams : Map ℕ (Unit {0})) (id : ℕ) (o : Outcome P)
      → is_some (link.pending id) ≡ true
      → IsConsistent link
      → IsConsistent (settled link streams id o)
  settled-IsConsistent link streams id o here c = record {
    issued = λ j used. elim (Bool-cases (id == j)) [
      | inl same ↦ let e = (==_iff id j).0 same in omega (arith, e, c.issued id (inl here))
      | inr other ↦ c.issued j (rw other at used)
    ];
    waiting = λ j pending. elim (Bool-cases (id == j)) [
      | inl same ↦ absurd (let gone = rw same at pending in cc)
      | inr other ↦ rw other (c.waiting j (rw other at pending))
    ];
  }

  -- a call that does not wait leaves the map
  forgotten-IsConsistent :
      (link : Link P) (streams : Map ℕ (Unit {0})) (id : ℕ)
      → IsConsistent link
      → IsConsistent (record link { pending = remove link.pending id; streams = streams })
  forgotten-IsConsistent link streams id c = record {
    issued = λ j used. elim (Bool-cases (id == j)) [
      | inl same ↦ c.issued j (outcome j (rw same at used))
      | inr other ↦ c.issued j (rw other at used)
    ];
    waiting = λ j pending. elim (Bool-cases (id == j)) [
      | inl same ↦ absurd (let gone = rw same at pending in cc)
      | inr other ↦ c.waiting j (rw other at pending)
    ];
  }
    where
      outcome :
          (j : ℕ)
          → (false ≡ true) ⊎ (is_some (link.outcomes j) ≡ true)
          → (is_some (link.pending j) ≡ true) ⊎ (is_some (link.outcomes j) ≡ true)
      outcome j (inl e) = cc
      outcome j (inr e) = inr e

  released-IsConsistent :
      (link : Link P) (streams : Map ℕ (Unit {0})) (id : ℕ)
      → IsConsistent link
      → IsConsistent (record link {
        pending = remove link.pending id;
        streams = streams;
        outcomes =
            if is_some (link.pending id) then insert link.outcomes id dropped else link.outcomes;
      })
  released-IsConsistent link streams id c = elim (Bool-cases (is_some (link.pending id))) [
    | inl here ↦ rw here (settled-IsConsistent link streams id dropped here c)
    | inr absent ↦ rw absent (forgotten-IsConsistent link streams id c)
  ]

  resolved-IsConsistent :
      (link : Link P) (id : ℕ) (payload : P) (stream : Option (Unit {0}))
      → IsConsistent link
      → IsConsistent (resolve_stream link id payload stream).0
  unfolding resolve_stream resolve_caller
  resolved-IsConsistent link id payload (some _) c = c
  resolved-IsConsistent link id payload none c = elim (Option-cases (link.pending id)) [
    | inl absent ↦ rw absent c
    | inr (u, there) ↦
        rw there (settled-IsConsistent link link.streams id (received payload) (rw there refl) c)
  ]

  failed-IsConsistent : (link : Link P) → IsConsistent link → IsConsistent (fail_all_pending link)
  unfolding fail_all_pending
  failed-IsConsistent link c = record {
    issued = λ j used. elim (Bool-cases (is_some (link.pending j))) [
      | inl here ↦ c.issued j (inl here)
      | inr absent ↦ c.issued j (inr (from_outcome (rw absent at used)))
    ];
    waiting = λ j pending. cc;
  }
    where
      from_outcome : {b : Bool} → (false ≡ true) ⊎ (b ≡ true) → b ≡ true
      from_outcome (inl e) = cc
      from_outcome (inr e) = e

  begun-IsConsistent :
      (link : Link P)
      → link.next_request_id + 1 < 2 ^ 64
      → IsConsistent link
      → IsConsistent (begin_call link)
  unfolding begin_call
  begun-IsConsistent link small c = record {
    issued = λ j used. elim (Bool-cases (link.next_request_id == j)) [
      | inl same ↦ let e = (==_iff link.next_request_id j).0 same in omega (arith, e, small)
      | inr other ↦ let before = c.issued j (rw other at used) in omega (arith, before, small)
    ];
    waiting = λ j pending. elim (Bool-cases (link.next_request_id == j)) [
      | inl same ↦
          let e = (==_iff link.next_request_id j).0 same in
          elim (Option-cases (link.outcomes j)) [
            | inl absent ↦ absent
            | inr (o, there) ↦
                let old = c.issued j (inr (rw there refl)) in absurd (omega (arith, old, e))
          ]
      | inr other ↦ c.waiting j (rw other at pending)
    ];
  }

  stream_begun-IsConsistent :
      (link : Link P)
      → link.next_request_id + 1 < 2 ^ 64
      → IsConsistent link
      → IsConsistent (begin_stream link)
  unfolding begin_stream
  stream_begun-IsConsistent link small c = record {
    issued = λ j used. let before = c.issued j used in omega (arith, before, small);
    waiting = c.waiting;
  }

  pub step-IsConsistent : (a b : Link P) → LinkStep a b → IsConsistent a → IsConsistent b
  unfolding set_outbound resolve end_stream give_up time_out
  step-IsConsistent a b connected c = record { issued = c.issued; waiting = c.waiting }
  step-IsConsistent a b (replied id none) c = c
  step-IsConsistent a b (replied id (some payload)) c =
      resolved-IsConsistent a id payload (a.streams id) c
  step-IsConsistent a b (stream_ended id) c = record { issued = c.issued; waiting = c.waiting }
  step-IsConsistent a b session_failed c = failed-IsConsistent a c
  step-IsConsistent a b (call_begun small) c = begun-IsConsistent a small c
  step-IsConsistent a b (stream_begun small) c = stream_begun-IsConsistent a small c
  step-IsConsistent a b (given_up id) c = released-IsConsistent a (remove a.streams id) id c
  step-IsConsistent a b (timed_out id) c = released-IsConsistent a a.streams id c
