-- ===== src/Agent/Containers/Laws.antt =====
-- berth-agent/src/containers.rs: what runs after a container was started, or stopped and removed.
use Prim.Native.String.{◌∷◌ as ◌::◌, ◌++◌ as ◌^^◌, count}
use text.Mathlib.TextLemmas.{length-append, length-cons}
use oxde.Prelude.{
  String, Char, ◌≡◌, refl, ap, ◌∙◌, ◌≢◌, inl, inr, Bool, true, false, Option, none, some, str_eq,
  eq_iff, arith, Bool-cases,
}
use oxde.Prelude.Result.{Result, ok, err, Result-cases}
use oxde.Agent.Containers.{
  Docker, RunContainerConfig, CommandExec, StartError, Waited, start, stop_and_remove,
  run_command_to_completion, install_container_name, create_and_start, start_fresh, install,
  ensure_image, is_running, container_exists, and_then, lifted, after_wait, exited, exited_with,
  wait_failed, timed_out, stopped, removed,
}

longer : (s : String) (c : Char) (t : String) → (s ^^ (c :: t)) ≢ s
longer s c t e = omega (arith, ap count e, length-append s (c :: t), length-cons c t)

install_container_name-ne : (name : String) → str_eq (install_container_name name) name ≡ false
unfolding install_container_name
install_container_name-ne name = elim (Bool-cases (str_eq (name ^^ "-install") name)) [
  | inl e ↦ absurd (longer name "-" "install" ((eq_iff (name ^^ "-install") name).0 e))
  | inr e ↦ e
]

module _ (docker : Docker) where
  open docker use {
    Daemon, running, create_container, start_container, stop_container, remove_container,
    wait_container, create_image, running-create_image, running-create, running-create_err,
    running-create_ok, running-start, running-start_err, running-start_ok, running-stop,
    running-stop_missing, running-remove, running-remove_ok, running-wait, inspect-running,
  }

  abbrev Outcome : Type 0
  Outcome = Daemon × Result (Unit {0}) StartError

  and_then-keeps :
      (failure : String → StartError) (done : Daemon × Result (Unit {0}) String)
      (later : Daemon → Outcome) (other : String) {was : Option Bool}
      → running done.0 other ≡ was
      → ((d : Daemon) → running d other ≡ was → running (later d).0 other ≡ was)
      → running (and_then docker failure done later).0 other ≡ was
  unfolding and_then
  and_then-keeps failure (d, err message) later other here kept = here
  and_then-keeps failure (d, ok _) later other here kept = kept d here

  ensure_image-keeps :
      (d : Daemon) (image other : String)
      → running (ensure_image docker d image).0 other ≡ running d other
  unfolding ensure_image
  ensure_image-keeps d image other = elim (Bool-cases (docker.inspect_image d image)) [
    | inl e ↦ rw e refl
    | inr e ↦ rw e (running-create_image d image other)
  ]

  after_wait-keeps :
      (name : String) (timeout : _) (done : Daemon × Waited) (other : String)
      → str_eq name other ≡ false
      → running (after_wait docker name timeout done).0 other ≡ running done.0 other
  unfolding after_wait
  after_wait-keeps name timeout (d, exited) other apart = refl
  after_wait-keeps name timeout (d, exited_with code message) other apart = refl
  after_wait-keeps name timeout (d, wait_failed message) other apart = refl
  after_wait-keeps name timeout (d, timed_out) other apart = running-stop d name other apart

  run_command-keeps :
      (d : Daemon) (name dir : String) (exec : CommandExec) (other : String)
      → str_eq name other ≡ false
      → running (run_command_to_completion docker d name dir exec).0 other ≡ running d other
  unfolding run_command_to_completion
  run_command-keeps d name dir exec other apart =
      and_then-keeps _ _ _ other (ensure_image-keeps d exec.image other) λ d1 e1.
        and_then-keeps _ _ _ other (running-create d1 name _ other apart ∙ e1) λ d2 e2.
          and_then-keeps _ _ _ other (running-start d2 name other apart ∙ e2) λ d3 e3.
            after_wait-keeps name exec.timeout _ other apart
            ∙ running-wait d3 name exec.timeout other apart
            ∙ e3

  install-keeps :
      (d : Daemon) (name dir : String) (config : RunContainerConfig) (command : Option String)
      (other : String)
      → str_eq (install_container_name name) other ≡ false
      → running (install docker d name dir config command).0 other ≡ running d other
  unfolding install
  install-keeps d name dir config none other apart = refl
  install-keeps d name dir config (some command) other apart =
      run_command-keeps d (install_container_name name) dir _ other apart

  create_and_start-keeps :
      (name dir : String) (config : RunContainerConfig) (done : Outcome) (other : String)
      → str_eq name other ≡ false
      → running (create_and_start docker name dir config done).0 other ≡ running done.0 other
  unfolding create_and_start lifted
  create_and_start-keeps name dir config (d, err e) other apart = refl
  create_and_start-keeps name dir config (d, ok _) other apart =
      and_then-keeps _ _ _ other (running-create d name _ other apart)
        λ d1 e1. and_then-keeps _ _ _ other (running-start d1 name other apart ∙ e1) (λ d2 e2. e2)

  start_fresh-keeps :
      (d : Daemon) (name dir : String) (config : RunContainerConfig) (other : String)
      → str_eq name other ≡ false
      → str_eq (install_container_name name) other ≡ false
      → running (start_fresh docker d name dir config).0 other ≡ running d other
  unfolding start_fresh
  start_fresh-keeps d name dir config other apart apart' =
      and_then-keeps _ _ _ other (ensure_image-keeps d config.image other) λ d1 e1.
        create_and_start-keeps name dir config _ other apart
        ∙ install-keeps d1 name dir config config.install_command other apart'
        ∙ e1

  -- Starting one container leaves the others as they are, but the one of its installation.
  pub start-keeps :
      (d : Daemon) (name dir : String) (config : RunContainerConfig) (other : String)
      → str_eq name other ≡ false
      → str_eq (install_container_name name) other ≡ false
      → running (start docker d name dir config).0 other ≡ running d other
  unfolding start lifted and_then
  start-keeps d name dir config other apart apart' = ground (
    arith,
    running-start d name other apart,
    start_fresh-keeps d name dir config other apart apart',
  )

  and_then-ok :
      (failure : String → StartError) (done : Daemon × Result (Unit {0}) String)
      (later : Daemon → Outcome)
      → (and_then docker failure done later).1 ≡ ok tt
      → (done.1 ≡ ok tt) × (and_then docker failure done later ≡ later done.0)
  unfolding and_then
  and_then-ok failure (d, err message) later e = cc
  and_then-ok failure (d, ok _) later e = (refl, refl)

  lifted_start-ok :
      (d : Daemon) (name : String)
      → (lifted docker (start_container d name)).1 ≡ ok tt
      → running (lifted docker (start_container d name)).0 name ≡ some true
  unfolding lifted
  lifted_start-ok d name e =
      let step = and_then-ok _ _ _ e in rw (step.1) (running-start_ok d name (step.0))

  create_and_start-ok :
      (name dir : String) (config : RunContainerConfig) (done : Outcome)
      → (create_and_start docker name dir config done).1 ≡ ok tt
      → running (create_and_start docker name dir config done).0 name ≡ some true
  unfolding create_and_start
  create_and_start-ok name dir config (d, err e) done = cc
  create_and_start-ok name dir config (d, ok _) done =
      let step = and_then-ok _ _ _ done in
      rw (step.1) (lifted_start-ok _ name (rw (step.1) at done))

  start_fresh-ok :
      (d : Daemon) (name dir : String) (config : RunContainerConfig)
      → (start_fresh docker d name dir config).1 ≡ ok tt
      → running (start_fresh docker d name dir config).0 name ≡ some true
  unfolding start_fresh
  start_fresh-ok d name dir config done =
      let step = and_then-ok _ _ _ done in
      rw (step.1) (create_and_start-ok name dir config _ (rw (step.1) at done))

  -- What `start` does, by what there is.
  abbrev by_answer : Daemon → (name dir : String) → RunContainerConfig → Option Bool → Outcome
  by_answer d name dir config none = start_fresh docker d name dir config
  by_answer d name dir config (some true) = (d, ok tt)
  by_answer d name dir config (some false) = lifted docker (start_container d name)

  start-by_answer :
      (d : Daemon) (name dir : String) (config : RunContainerConfig) (answer : Option Bool)
      → docker.inspect_container d name ≡ ok answer
      → start docker d name dir config ≡ by_answer d name dir config answer
  unfolding start is_running container_exists
  start-by_answer d name dir config none e = ground arith
  start-by_answer d name dir config (some true) e = ground arith
  start-by_answer d name dir config (some false) e = ground arith

  start-unavailable :
      (d : Daemon) (name dir : String) (config : RunContainerConfig) {message : String}
      → docker.inspect_container d name ≡ err message
      → start docker d name dir config ≡ (d, err (StartError.unavailable message))
  unfolding start is_running
  start-unavailable d name dir config e = ground arith

  by_answer-ok :
      (d : Daemon) (name dir : String) (config : RunContainerConfig) (answer : Option Bool)
      → running d name ≡ answer
      → (by_answer d name dir config answer).1 ≡ ok tt
      → running (by_answer d name dir config answer).0 name ≡ some true
  by_answer-ok d name dir config none there done = start_fresh-ok d name dir config done
  by_answer-ok d name dir config (some true) there done = there
  by_answer-ok d name dir config (some false) there done = lifted_start-ok d name done

  -- A container that was started runs.
  pub start-ok :
      (d : Daemon) (name dir : String) (config : RunContainerConfig)
      → (start docker d name dir config).1 ≡ ok tt
      → running (start docker d name dir config).0 name ≡ some true
  start-ok d name dir config done = elim (Result-cases (docker.inspect_container d name)) [
    | inr (message, e) ↦
        absurd
          (let failed = start-unavailable d name dir config e in let x = rw failed at done in cc)
    | inl (answer, e) ↦
        let same = start-by_answer d name dir config answer e in
        rw same (by_answer-ok d name dir config answer (inspect-running d name e) (rw same at done))
  ]

  removed-keeps :
      (done : Daemon × Result Bool String) (other : String)
      → running (removed docker done).0 other ≡ running done.0 other
  removed-keeps (d, err message) other = refl
  removed-keeps (d, ok existed) other = refl

  removed-ok :
      (done : Daemon × Result Bool String)
      → (removed docker done).1 ≡ ok tt
      → (existed : Bool) × (done.1 ≡ ok existed)
  removed-ok (d, err message) e = cc
  removed-ok (d, ok existed) e = (existed, refl)

  stopped-ok :
      (name : String) (done : Daemon × Result Bool String)
      → (done.1 ≡ ok false → running done.0 name ≡ none)
      → (stopped docker name done).1 ≡ ok tt
      → running (stopped docker name done).0 name ≡ none
  stopped-ok name (d, err message) missing e = cc
  stopped-ok name (d, ok false) missing e = missing refl
  stopped-ok name (d, ok true) missing e =
      let gone = removed-ok (remove_container d name) e in
      removed-keeps (remove_container d name) name ∙ running-remove_ok d name (gone.1)

  -- A container that was stopped and removed is not there.
  pub stop_and_remove-ok :
      (d : Daemon) (name : String)
      → (stop_and_remove docker d name).1 ≡ ok tt
      → running (stop_and_remove docker d name).0 name ≡ none
  unfolding stop_and_remove
  stop_and_remove-ok d name e =
      stopped-ok name (stop_container d name) (running-stop_missing d name) e

  stopped-keeps :
      (name : String) (done : Daemon × Result Bool String) (other : String)
      → str_eq name other ≡ false
      → running (stopped docker name done).0 other ≡ running done.0 other
  stopped-keeps name (d, err message) other apart = refl
  stopped-keeps name (d, ok false) other apart = refl
  stopped-keeps name (d, ok true) other apart =
      removed-keeps (remove_container d name) other ∙ running-remove d name other apart

  pub stop_and_remove-keeps :
      (d : Daemon) (name other : String)
      → str_eq name other ≡ false
      → running (stop_and_remove docker d name).0 other ≡ running d other
  unfolding stop_and_remove
  stop_and_remove-keeps d name other apart =
      stopped-keeps name (stop_container d name) other apart ∙ running-stop d name other apart
