-- ===== src/Logs/Backlog.antt =====
-- berth-hub/src/deployment_logs.rs: what a backlog shows of the stream that a pump was given.
use mathlib.Core.List.{append_assoc, append-nil}
use mathlib.Core.Path.{subst}
use oxde.Prelude.{
  ℕ, ◌+◌, ◌≤◌, String, ◌≡◌, refl, sym, ap, ◌∙◌, ◌⊎◌, inl, inr, Bool, true, false, Option, none,
  some, List, [], ◌∷◌, ◌++◌, length, length-append, leb, leb→le, Bool-cases, Option-cases, insert,
  remove, string_key, arith,
}
use oxde.Prelude.Result.{ok}
use oxde.Prelude.Find.{some_inj}
use oxde.Logs.{
  run, Content, Files, LogRegistry, LogPump, PushIo, push, try_new, read_backlog,
  run_log_rotate_bytes, rotate_and_reopen, read_into,
}

-- A file system on which nothing fails.
abbrev pub healthy : PushIo
healthy = record { renames = true; opens = true; write_fails_at = none }

abbrev pub readable : String → Bool
readable name = true

unfoldable pub pushes : Files → LogPump → List Content → Files × LogPump
pushes files pump [] = (files, pump)
pushes files pump (chunk ∷ chunks) =
    let next = push files pump chunk healthy in pushes next.0 next.1 chunks

abbrev pub concat : List Content → Content
concat [] = []
concat (chunk ∷ chunks) = chunk ++ concat chunks

abbrev pub text_of : Option Content → Content
text_of none = []
text_of (some content) = content

-- The specification: a log is everything that was ever written to it, and it shows an end of that:
-- all of it, or a mebibyte at least.
abbrev pub Shows : (shown whole : Content) → Type 0
Shows shown whole =
    (lost : Content) × (whole ≡ lost ++ shown)
    × ((lost ≡ []) ⊎ (run_log_rotate_bytes ≤ length shown))

-- The pump of a running deployment, while its file is open.
abbrev running : String → List Content → ℕ → LogPump
running id sent n = record {
  deployment_id = id;
  kind = run;
  sent = sent;
  file = true;
  bytes_written = n;
}

abbrev Holds : Files → Content → Content → Type 0
Holds files old current = (text_of (files "run.log.1") ≡ old) × (files "run.log" ≡ some current)

-- The directory after `run.log` has become `run.log.1`.
abbrev moved : Files → Content → Files
moved files current = insert (insert (remove files "run.log") "run.log.1" current) "run.log" []

rotate_and_reopen-moved :
    (files : Files) (current : Content)
    → files "run.log" ≡ some current
    → rotate_and_reopen files healthy ≡ (moved files current, true)
unfolding rotate_and_reopen
rotate_and_reopen-moved files current e = rw (e, rotate_and_reopen) refl

module _ (files : Files) (id : String) (sent : List Content) {old current : Content}
    (holds : Holds files old current) (chunk : Content) where
  abbrev next : Files × LogPump
  next = push files (running id sent (length current)) chunk healthy

  push_below :
      leb run_log_rotate_bytes (length current) ≡ false
      → Holds next.0 old (current ++ chunk)
        × (next.1 ≡ running id (sent ++ chunk ∷ []) (length (current ++ chunk)))
  unfolding push
  push_below small = rw (small, holds.1, length-append current chunk) ((holds.0, refl), refl)

  push_full :
      leb run_log_rotate_bytes (length current) ≡ true
      → Holds next.0 current chunk × (next.1 ≡ running id (sent ++ chunk ∷ []) (length chunk))
  unfolding push
  push_full full =
      let counted : 0 + length chunk ≡ length chunk = omega arith in
      rw (full, rotate_and_reopen-moved files current holds.1, counted) ((refl, refl), refl)

-- What a pump leaves, when it began with these two files.
abbrev Leaves : Files × LogPump → (old current later : Content) → Type 0
Leaves result old current later =
    (old' : Content) × (current' : Content) × Holds result.0 old' current'
    × Shows (old' ++ current') ((old ++ current) ++ later)

Shows-all : (whole : Content) → Shows whole whole
Shows-all whole = ([], refl, inl refl)

-- What a rotation drops was shown before the file that it keeps.
Shows-dropped :
    (old current later shown : Content)
    → run_log_rotate_bytes ≤ length current
    → Shows shown (current ++ later)
    → Shows shown ((old ++ current) ++ later)
Shows-dropped old current later shown full (lost, whole, inl nothing) = (
  old,
  append_assoc old current later ∙ ap (λ s. old ++ s) (whole ∙ ap (λ s. s ++ shown) nothing),
  inr (
      omega (arith, ap length (whole ∙ ap (λ s. s ++ shown) nothing), length-append current later)),
)
Shows-dropped old current later shown full (lost, whole, inr enough) = (
  old ++ lost,
  append_assoc old current later ∙ ap (λ s. old ++ s) whole ∙ sym (append_assoc old lost shown),
  inr enough,
)

regroup : (a b c d : Content) → (a ++ b) ++ (c ++ d) ≡ (a ++ (b ++ c)) ++ d
regroup a b c d = simp append_assoc

pushes_lem :
    (files : Files) (id : String) (sent : List Content) (old current : Content)
    → Holds files old current
    → (chunks : List Content)
    → Leaves (pushes files (running id sent (length current)) chunks) old current (concat chunks)
unfolding pushes
pushes_lem files id sent old current holds [] =
    (old, current, holds, rw append-nil (Shows-all (old ++ current)))
pushes_lem files id sent old current holds (chunk ∷ chunks) =
    elim (Bool-cases (leb run_log_rotate_bytes (length current))) [
      | inl full ↦
          let step = push_full files id sent holds chunk full in
          let after = next files id sent holds chunk in
          let (old', current', held, shows) =
            pushes_lem after.0 id (sent ++ chunk ∷ []) current chunk step.0 chunks in
          subst (λ p. Leaves (pushes after.0 p chunks) old current (chunk ++ concat chunks))
            (sym step.1)
            (
              old',
              current',
              held,
              Shows-dropped old current (chunk ++ concat chunks) (old' ++ current')
                  (leb→le _ _ full) (rw (← append_assoc current chunk (concat chunks)) shows),
            )
      | inr small ↦
          let step = push_below files id sent holds chunk small in
          let after = next files id sent holds chunk in
          let (old', current', held, shows) =
            pushes_lem after.0 id (sent ++ chunk ∷ []) old (current ++ chunk) step.0 chunks in
          subst (λ p. Leaves (pushes after.0 p chunks) old current (chunk ++ concat chunks))
            (sym step.1)
            (old', current', held, rw (regroup old current chunk (concat chunks)) shows)
    ]

-- What a reader of the run log is shown: both files, the older one first.
abbrev pub run_log : Files → Content
run_log files = text_of (files "run.log.1") ++ text_of (files "run.log")

read_into_lem :
    (files : Files) (name : String) (buf : Content)
    → read_into files name readable buf ≡ ok (buf ++ text_of (files name))
unfolding read_into
read_into_lem files name buf = elim (Option-cases (files name)) [
  | inl e ↦ rw (e, read_into, append-nil) refl
  | inr (c, e) ↦ rw (e, read_into) refl
]

read_backlog-run : (files : Files) → read_backlog files run readable ≡ ok (run_log files)
unfolding read_backlog
read_backlog-run files = rw (read_into_lem files "run.log.1" []) (read_into_lem files "run.log" _)

-- How a pump of a running deployment begins.
try_new-run :
    (registry : LogRegistry) (files : Files) (id : String) {registered : LogRegistry}
    {files' : Files} {pump : LogPump}
    → try_new registry files id run true true ≡ some (registered, files', pump)
    → Holds files' (text_of (files "run.log.1")) (text_of (files "run.log"))
      × (pump ≡ running id [] (length (text_of (files "run.log"))))
unfolding try_new
try_new-run registry files id started =
    let Begun = λ (t : LogRegistry × Files × LogPump).
      Holds t.1 (text_of (files "run.log.1")) (text_of (files "run.log"))
      × (t.2 ≡ running id [] (length (text_of (files "run.log")))) in
    elim (Option-cases (registry id)) [
      | inr (kind, e) ↦ absurd (let x = rw (e, try_new) at started in cc)
      | inl e ↦ elim (Option-cases (files "run.log")) [
        | inl e' ↦
            subst Begun (some_inj (rw (e, e', try_new) at started)) (rw e' ((refl, refl), refl))
        | inr (c, e') ↦
            subst Begun (some_inj (rw (e, e', try_new) at started)) (rw e' ((refl, refl), refl))
      ]
    ]

-- The run log refines an append-only log: whatever chunks the pump of a running deployment is
-- given, on a file system on which nothing fails, a reader is shown an end of what the directory
-- showed before followed by those chunks, and either all of it or a mebibyte at least.
pub run_log_refines :
    (registry : LogRegistry) (files : Files) (id : String) (chunks : List Content)
    {registered : LogRegistry} {files' : Files} {pump : LogPump}
    → try_new registry files id run true true ≡ some (registered, files', pump)
    → (shown : Content) × (read_backlog (pushes files' pump chunks).0 run readable ≡ ok shown)
      × Shows shown (run_log files ++ concat chunks)
run_log_refines registry files id chunks {files' = files'} started =
    let begun = try_new-run registry files id started in
    let (old, current, held, shows) = pushes_lem files' id [] _ _ begun.0 chunks in
    subst
      (λ p.
        (shown : Content) × (read_backlog (pushes files' p chunks).0 run readable ≡ ok shown)
        × Shows shown (run_log files ++ concat chunks))
      (sym begun.1) (old ++ current, read_backlog-run _ ∙ ap ok (rw (held.0, held.1) refl), shows)
