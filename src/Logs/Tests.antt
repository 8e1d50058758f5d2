-- ===== src/Logs/Tests.antt =====
-- The pump and the backlog on concrete files.
use oxde.Prelude.{
  ℕ, zero, suc, ◌*◌, ◌≡◌, refl, true, some, [], ◌∷◌, empty_map, ◌++◌, insert, string_key,
}
use oxde.Prelude.Result.{ok}
use oxde.Logs.{
  Content, Files, LogPump, run, try_new, drop_pump, read_backlog, push, live_tail, bytes, lagged,
  closed, active,
}
use oxde.Logs.Backlog.{run_log_refines, run_log, Shows, concat, pushes, readable}
use oxde.Logs.Registry.{one_pump_each, stay, and_then, start, stop, pumps_of}

-- A block that fills the run log, and a line after it.
block : ℕ → Content
block zero = []
block (suc n) = 10 ∷ block n

abbrev full : Content
full = block (1024 * 1024)

abbrev older : Files
older = insert empty_map "run.log" (1 ∷ 2 ∷ [])

abbrev begun : LogPump
begun = record { deployment_id = "d"; kind = run; sent = []; file = true; bytes_written = 2 }

run_log_refines_example :
    (shown : Content) × (read_backlog (pushes older begun (full ∷ (3 ∷ []) ∷ [])).0 run readable
      ≡ ok shown)
    × Shows shown (run_log older ++ concat (full ∷ (3 ∷ []) ∷ []))
unfolding try_new
run_log_refines_example =
    run_log_refines empty_map older "d" (full ∷ (3 ∷ []) ∷ [])
      {registered = insert empty_map "d" run} {files' = older} {pump = begun} refl

one_pump_each_example : pumps_of "d" [] ≡ 0
unfolding try_new active drop_pump
one_pump_each_example =
    one_pump_each
      (and_then
        (start empty_map (insert empty_map "d" run) [] older older "d" run true true begun refl)
        (and_then (stop (insert empty_map "d" run) [] begun []) (stay _)))
      "d"

lagging :
    live_tail (bytes (1 ∷ []) ∷ lagged 4 ∷ bytes (2 ∷ []) ∷ closed ∷ []) ≡ (1 ∷ []) ∷ (2 ∷ []) ∷ []
unfolding live_tail
lagging = refl

failing_write :
    read_backlog
      (push older begun
        (3 ∷ 4 ∷ [])
        (record { renames = true; opens = true; write_fails_at = some 1 })).0
      run
      readable
    ≡ ok (1 ∷ 2 ∷ 3 ∷ [])
unfolding push read_backlog
failing_write = refl
