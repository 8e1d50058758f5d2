-- ===== src/AgentLink/Tests.antt =====
-- A link of berth-hub/src/agent_link.rs with one call.
use oxde.Prelude.{ℕ, ◌≡◌, refl, ◌⊎◌, Bool, true, false, inl, inr, some, arith}
use oxde.Prelude.Text.{is_some}
use oxde.AgentLink.{
  Link, Outcome, received, resolve, resolve_stream, resolve_caller, begin_call, fail_all_pending,
  empty_link,
}
use oxde.AgentLink.Steps.{IsConsistent, replied, call_begun, step-IsConsistent}
use oxde.AgentLink.Answers.{done, next_step, answered_once, every_call_ends}

abbrev fresh : Link ℕ
fresh = empty_link

abbrev called : Link ℕ
called = begin_call fresh

abbrev answered : Link ℕ
answered = (resolve called 1 (some 9)).0

fresh-IsConsistent : IsConsistent fresh
fresh-IsConsistent = record { issued = λ id used. no_call used; waiting = λ id waits. refl }
  where
    no_call : {A : Type 0} → (◌≡◌ {A = Bool} false true) ⊎ (◌≡◌ {A = Bool} false true) → A
    no_call (inl e) = cc
    no_call (inr e) = cc

called-IsConsistent : IsConsistent called
called-IsConsistent = step-IsConsistent fresh called (call_begun (omega arith)) fresh-IsConsistent

first_answer : answered.outcomes 1 ≡ some (received 9)
unfolding resolve resolve_stream resolve_caller begin_call
first_answer = refl

call_waits : is_some (called.pending 1) ≡ true
unfolding begin_call
call_waits = refl

answered_once_example : (resolve answered 1 (some 8)).0.outcomes 1 ≡ some (received 9)
answered_once_example =
    answered_once answered (resolve answered 1 (some 8)).0 1 (received 9)
      (next_step (replied 1 (some 8)) done)
      (step-IsConsistent called answered (replied 1 (some 9)) called-IsConsistent) first_answer

every_call_ends_example : (o : Outcome ℕ) × ((fail_all_pending called).outcomes 1 ≡ some o)
every_call_ends_example = every_call_ends called called 1 done called-IsConsistent call_waits
