-- ===== src/AgentLink/Answers.antt =====
-- The outcomes of calls over berth-hub/src/agent_link.rs in sequences of steps.
use oxde.Prelude.{
  ℕ, ◌≡◌, refl, sym, ap, ◌∙◌, ◌⊎◌, inl, inr, true, Option, none, some, Map, insert, remove, nat_key,
  ◌==◌, ==_iff, if◌then◌else◌, Bool-cases, Option-cases,
}
use oxde.Prelude.Text.{is_some}
use oxde.AgentLink.{
  Link, Outcome, received, dropped, set_outbound, resolve, resolve_stream, resolve_caller,
  end_stream, fail_all_pending, begin_call, begin_stream, give_up, time_out,
}
use oxde.AgentLink.Steps.{
  IsConsistent, LinkStep, connected, replied, stream_ended, session_failed, call_begun,
  stream_begun, given_up, timed_out, step-IsConsistent,
}

pub data LinkSteps {P : Type 0} : Link P → Link P → Type 0 where
  done : {link : Link P} → LinkSteps link link
  next_step : {a b c : Link P} → LinkStep a b → LinkSteps b c → LinkSteps a c

-- The call with this id waits, or has an outcome.
abbrev pub IsKnown : {P : Type 0} → Link P → ℕ → Type 0
IsKnown link id = (is_some (link.pending id) ≡ true) ⊎ (is_some (link.outcomes id) ≡ true)

module _ {P : Type 0} where
  none-some : {o : Outcome P} → ◌≡◌ {A = Option (Outcome P)} none (some o) → ⊥
  none-some e = cc

  -- an outcome for a call that waits replaces none
  insert_kept :
      (link : Link P) (id j : ℕ) (o new : Outcome P)
      → IsConsistent link
      → is_some (link.pending id) ≡ true
      → link.outcomes j ≡ some o
      → insert link.outcomes id new j ≡ some o
  insert_kept link id j o new c here there = elim (Bool-cases (id == j)) [
    | inl same ↦
        let e = (==_iff id j).0 same in
        absurd (none-some (sym (c.waiting id here) ∙ ap link.outcomes e ∙ there))
    | inr other ↦ rw other there
  ]

  released_kept :
      (link : Link P) (id j : ℕ) (o : Outcome P)
      → IsConsistent link
      → link.outcomes j ≡ some o
      → (if is_some (link.pending id) then insert link.outcomes id dropped else link.outcomes) j
        ≡ some o
  released_kept link id j o c there = elim (Bool-cases (is_some (link.pending id))) [
    | inl here ↦ rw here (insert_kept link id j o dropped c here there)
    | inr absent ↦ rw absent there
  ]

  resolved_kept :
      (link : Link P) (id j : ℕ) (payload : P) (stream : Option (Unit {0})) (o : Outcome P)
      → IsConsistent link
      → link.outcomes j ≡ some o
      → (resolve_stream link id payload stream).0.outcomes j ≡ some o
  unfolding resolve_stream resolve_caller
  resolved_kept link id j payload (some _) o c there = there
  resolved_kept link id j payload none o c there = elim (Option-cases (link.pending id)) [
    | inl absent ↦ rw absent there
    | inr (u, here) ↦ rw here (insert_kept link id j o (received payload) c (rw here refl) there)
  ]

  failed_kept :
      (link : Link P) (j : ℕ) (o : Outcome P)
      → IsConsistent link
      → link.outcomes j ≡ some o
      → (fail_all_pending link).outcomes j ≡ some o
  unfolding fail_all_pending
  failed_kept link j o c there = elim (Bool-cases (is_some (link.pending j))) [
    | inl here ↦ absurd (none-some (sym (c.waiting j here) ∙ there))
    | inr absent ↦ rw absent there
  ]

  step_kept :
      (a b : Link P) (j : ℕ) (o : Outcome P)
      → LinkStep a b
      → IsConsistent a
      → a.outcomes j ≡ some o
      → b.outcomes j ≡ some o
  unfolding set_outbound resolve end_stream begin_call begin_stream give_up time_out
  step_kept a b j o connected c there = there
  step_kept a b j o (replied id none) c there = there
  step_kept a b j o (replied id (some payload)) c there =
      resolved_kept a id j payload (a.streams id) o c there
  step_kept a b j o (stream_ended id) c there = there
  step_kept a b j o session_failed c there = failed_kept a j o c there
  step_kept a b j o (call_begun small) c there = there
  step_kept a b j o (stream_begun small) c there = there
  step_kept a b j o (given_up id) c there = released_kept a id j o c there
  step_kept a b j o (timed_out id) c there = released_kept a id j o c there

  -- A call that has an outcome keeps it: whatever happens on a consistent link, and whatever the
  -- agent sends again under its id, no second answer reaches it.
  pub answered_once :
      (a b : Link P) (id : ℕ) (o : Outcome P)
      → LinkSteps a b
      → IsConsistent a
      → a.outcomes id ≡ some o
      → b.outcomes id ≡ some o
  answered_once a b id o done c there = there
  answered_once a b id o (next_step {b = m} step steps) c there =
      answered_once m b id o steps (step-IsConsistent a m step c) (step_kept a m id o step c there)

  released-IsKnown :
      (link : Link P) (streams : Map ℕ (Unit {0})) (id j : ℕ)
      → is_some (link.pending j) ≡ true
      → IsKnown
          (record link {
            pending = remove link.pending id;
            streams = streams;
            outcomes =
                if is_some (link.pending id)
                then insert link.outcomes id dropped
                else link.outcomes;
          })
          j
  released-IsKnown link streams id j waits = elim (Bool-cases (id == j)) [
    | inl same ↦
        let e = (==_iff id j).0 same in
        let here : is_some (link.pending id) ≡ true =
          ap (λ i. is_some (link.pending i)) e ∙ waits in
        inr (rw (here, same) refl)
    | inr other ↦ inl (rw other waits)
  ]

  resolved-IsKnown :
      (link : Link P) (id j : ℕ) (payload : P) (stream : Option (Unit {0}))
      → is_some (link.pending j) ≡ true
      → IsKnown (resolve_stream link id payload stream).0 j
  unfolding resolve_stream resolve_caller
  resolved-IsKnown link id j payload (some _) waits = inl waits
  resolved-IsKnown link id j payload none waits = elim (Option-cases (link.pending id)) [
    | inl absent ↦ rw absent (inl waits)
    | inr (u, here) ↦ elim (Bool-cases (id == j)) [
      | inl same ↦ rw here (inr (rw same refl))
      | inr other ↦ rw here (inl (rw other waits))
    ]
  ]

  failed_known :
      (link : Link P) (j : ℕ)
      → is_some (link.pending j) ≡ true
      → is_some ((fail_all_pending link).outcomes j) ≡ true
  unfolding fail_all_pending
  failed_known link j waits = rw waits refl

  begun_known :
      (link : Link P) (j : ℕ)
      → is_some (link.pending j) ≡ true
      → is_some ((begin_call link).pending j) ≡ true
  unfolding begin_call
  begun_known link j waits = elim (Bool-cases (link.next_request_id == j)) [
    | inl same ↦ rw same refl
    | inr other ↦ rw other waits
  ]

  step-IsKnown : (a b : Link P) (j : ℕ) → LinkStep a b → IsConsistent a → IsKnown a j → IsKnown b j
  unfolding set_outbound resolve end_stream begin_stream give_up time_out
  step-IsKnown a b j step c (inr there) = elim (Option-cases (a.outcomes j)) [
    | inl absent ↦ absurd (let none_there = rw absent at there in cc)
    | inr (o, found) ↦ inr (rw (step_kept a b j o step c found) refl)
  ]
  step-IsKnown a b j connected c (inl waits) = inl waits
  step-IsKnown a b j (replied id none) c (inl waits) = inl waits
  step-IsKnown a b j (replied id (some payload)) c (inl waits) =
      resolved-IsKnown a id j payload (a.streams id) waits
  step-IsKnown a b j (stream_ended id) c (inl waits) = inl waits
  step-IsKnown a b j session_failed c (inl waits) = inr (failed_known a j waits)
  step-IsKnown a b j (call_begun small) c (inl waits) = inl (begun_known a j waits)
  step-IsKnown a b j (stream_begun small) c (inl waits) = inl waits
  step-IsKnown a b j (given_up id) c (inl waits) =
      released-IsKnown a (remove a.streams id) id j waits
  step-IsKnown a b j (timed_out id) c (inl waits) = released-IsKnown a a.streams id j waits

  steps-IsKnown :
      (a b : Link P) (j : ℕ)
      → LinkSteps a b
      → IsConsistent a
      → IsKnown a j
      → IsKnown b j × IsConsistent b
  steps-IsKnown a b j done c known = (known, c)
  steps-IsKnown a b j (next_step {b = m} step steps) c known =
      steps-IsKnown m b j steps (step-IsConsistent a m step c) (step-IsKnown a m j step c known)

  -- No call is left waiting: from a consistent link, a call that has begun has an outcome once the
  -- session has failed, whatever happened in between.
  pub every_call_ends :
      (a b : Link P) (id : ℕ)
      → LinkSteps a b
      → IsConsistent a
      → is_some (a.pending id) ≡ true
      → (o : Outcome P) × ((fail_all_pending b).outcomes id ≡ some o)
  unfolding fail_all_pending
  every_call_ends a b id steps c waits =
      let (known, consistent) = steps-IsKnown a b id steps c (inl waits) in
      ended (step-IsKnown b (fail_all_pending b) id session_failed consistent known)
    where
      ended :
          IsKnown (fail_all_pending b) id
          → (o : Outcome P) × ((fail_all_pending b).outcomes id ≡ some o)
      ended (inl waiting) = cc
      ended (inr there) = elim (Option-cases ((fail_all_pending b).outcomes id)) [
        | inl absent ↦ absurd (let none_there = rw absent at there in cc)
        | inr found ↦ found
      ]
