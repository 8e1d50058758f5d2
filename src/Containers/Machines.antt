-- ===== src/Containers/Machines.antt =====
-- berth-hub/src/containers.rs against berth-agent/src/handlers.rs: the hosts' agents as the hub sees
-- them. A host has a connected agent or none; the answer to a call may be lost with the session.
use mathlib.Core.Path.{subst}
use oxde.Prelude.{
  suc, length, arith, ℕ, String, ◌≡◌, refl, sym, ap, ◌∙◌, inl, inr, Bool, true, false, ◌&&◌, ◌==◌,
  ==_iff, Option, none, some, List, [], str_eq, if◌then◌else◌, Bool-cases,
}
use mathlib.Core.List.{append-nil}
use oxde.Prelude.Result.{Result, ok, err}
use oxde.Error.{AppError, AppResult}
use oxde.Relay.{ByteVec}
use oxde.Containers.{Agents, StartRequest, drain_command_output, command_result_to_app_result}
use oxde.Agent.Containers.{
  Docker, StartError, install_container_name, start, stop_and_remove, is_running,
}
use oxde.Agent.Containers.Laws.{start-ok, start-keeps, stop_and_remove-ok, stop_and_remove-keeps}
use oxde.Agent.Handlers.{
  start_run_container, stop_and_remove_container, drain-stream_command, reported_result,
  stream_command, command_result, run_container_config,
}

abbrev lost : AppError
lost = AppError.agent_unavailable

module _ (docker : Docker) (files_dir : (deployment_id : String) → String) where
  open docker use {Daemon, running}

  -- Each host's containers, whether its agent is connected, and whether the session will hold until
  -- the answer is there.
  pub record Hosts : Type 0 where
    pub daemon : ℕ → Daemon
    pub connected : ℕ → Bool
    pub answers : ℕ → Bool
    pub installs : ℕ → List ByteVec

  abbrev with_daemon : Hosts → (host_id : ℕ) → Daemon → Hosts
  with_daemon hosts host_id d = record hosts {
    daemon = λ h. if host_id == h then d else hosts.daemon h;
  }

  abbrev is_on : Option Bool → Bool
  is_on none = false
  is_on (some on) = on

  abbrev pub runs_on : Hosts → (host_id : ℕ) → (name : String) → Bool
  runs_on hosts host_id name = is_on (running (hosts.daemon host_id) name)

  unfoldable pub start_on : Hosts → (host_id : ℕ) → StartRequest → Hosts × AppResult (Unit {0})
  unfolding drain_command_output start_run_container
  start_on hosts host_id request =
      let after =
        start_run_container docker files_dir (hosts.daemon host_id) request
          (suc (length (hosts.installs host_id))) (hosts.installs host_id) in
      if hosts.connected host_id
      then (
        with_daemon hosts host_id after.0,
        (drain_command_output (if hosts.answers host_id then after.1 else [])).1,
      )
      else (hosts, err AppError.agent_unavailable)

  unfoldable pub stop_on :
      Hosts → (host_id : ℕ) → (name : String) → (is_install : Bool) → Hosts × AppResult (Unit {0})
  unfolding command_result_to_app_result stop_and_remove_container
  stop_on hosts host_id name is_install =
      let after =
        stop_and_remove_container docker files_dir (hosts.daemon host_id) name is_install in
      if hosts.connected host_id
      then (
        with_daemon hosts host_id after.0,
        (if hosts.answers host_id
            then command_result_to_app_result after.1
            else err AppError.agent_unavailable),
      )
      else (hosts, err AppError.agent_unavailable)

  module _ (hosts : Hosts) (host_id : ℕ) (request : StartRequest) where
    abbrev outcome : Daemon × Result (Unit {0}) StartError
    outcome =
        start docker (hosts.daemon host_id) request.container_name (files_dir request.deployment_id)
          (run_container_config docker files_dir request)

    drained :
        (drain_command_output
          (start_run_container docker files_dir
            (hosts.daemon host_id)
            request
            (suc (length (hosts.installs host_id)))
            (hosts.installs host_id)).1).1
        ≡ reported_result outcome.1
    unfolding start_run_container
    drained =
        ap (λ r. r.1)
          (subst
            (λ sent.
              drain_command_output sent ≡ (hosts.installs host_id, reported_result outcome.1))
            (append-nil (
              stream_command (suc (length (hosts.installs host_id))) (hosts.installs host_id)
                outcome.1))
            (drain-stream_command (suc (length (hosts.installs host_id))) (hosts.installs host_id)
              outcome.1 [] (omega arith)))

  reported-ok : (r : Result (Unit {0}) StartError) → reported_result r ≡ ok tt → r ≡ ok tt
  reported-ok (ok u) e = refl
  reported-ok (err failure) e = cc

  pub runs-start_ok :
      (hosts : Hosts) (host_id : ℕ) (request : StartRequest)
      → (start_on hosts host_id request).1 ≡ ok tt
      → runs_on (start_on hosts host_id request).0 host_id request.container_name ≡ true
  unfolding start_on drain_command_output start_run_container
  runs-start_ok hosts host_id request done = elim (Bool-cases (hosts.connected host_id)) [
    | inr e ↦ absurd (let x = rw e at done in cc)
    | inl e ↦ elim (Bool-cases (hosts.answers host_id)) [
      | inr e' ↦ absurd (let x = rw (e, e') at done in cc)
      | inl e' ↦
          let same : (host_id == host_id) ≡ true = (==_iff host_id host_id).1 refl in
          let began =
            reported-ok (outcome hosts host_id request).1
              (sym (drained hosts host_id request) ∙ (rw (e, e') at done)) in
          rw (e, same)
            (rw
              (start-ok docker (hosts.daemon host_id) request.container_name
                (files_dir request.deployment_id) (run_container_config docker files_dir request)
                began)
              refl)
    ]
  ]

  pub runs-start :
      (hosts : Hosts) (host_id : ℕ) (request : StartRequest) (other : ℕ) (name : String)
      → (host_id == other && str_eq request.container_name name) ≡ false
      → (host_id == other && str_eq (install_container_name request.container_name) name) ≡ false
      → runs_on (start_on hosts host_id request).0 other name ≡ runs_on hosts other name
  unfolding start_on start_run_container
  runs-start hosts host_id request other name apart apart' =
      elim (Bool-cases (hosts.connected host_id)) [
        | inr e ↦ rw e refl
        | inl e ↦ elim (Bool-cases (host_id == other)) [
          | inr e' ↦ rw (e, e') refl
          | inl e' ↦
              let same : host_id ≡ other = (==_iff host_id other).0 e' in
              let kept =
                start-keeps docker (hosts.daemon host_id) request.container_name
                  (files_dir request.deployment_id) (run_container_config docker files_dir request)
                  name (rw e' at apart) (rw e' at apart') in
              rw (e, e') (ap is_on kept ∙ ap (λ h. runs_on hosts h name) same)
        ]
      ]

  command_result-ok :
      (r : Result (Unit {0}) String)
      → command_result_to_app_result (command_result docker files_dir r) ≡ ok tt
      → r ≡ ok tt
  unfolding command_result_to_app_result
  command_result-ok (ok u) e = refl
  command_result-ok (err message) e = cc

  pub runs-stop_ok :
      (hosts : Hosts) (host_id : ℕ) (name : String)
      → (stop_on hosts host_id name false).1 ≡ ok tt
      → runs_on (stop_on hosts host_id name false).0 host_id name ≡ false
  unfolding stop_on stop_and_remove_container
  runs-stop_ok hosts host_id name done = elim (Bool-cases (hosts.connected host_id)) [
    | inr e ↦ absurd (let x = rw e at done in cc)
    | inl e ↦ elim (Bool-cases (hosts.answers host_id)) [
      | inr e' ↦ absurd (let x = rw (e, e') at done in cc)
      | inl e' ↦
          let same : (host_id == host_id) ≡ true = (==_iff host_id host_id).1 refl in
          let gone = stop_and_remove-ok docker (hosts.daemon host_id) name (
            command_result-ok (stop_and_remove docker (hosts.daemon host_id) name).1
              (rw (e, e') at done)) in
          rw (e, same) (rw gone refl)
    ]
  ]

  pub runs-stop :
      (hosts : Hosts) (host_id : ℕ) (name : String) (other : ℕ) (other_name : String)
      → (host_id == other && str_eq name other_name) ≡ false
      → runs_on (stop_on hosts host_id name false).0 other other_name
        ≡ runs_on hosts other other_name
  unfolding stop_on stop_and_remove_container
  runs-stop hosts host_id name other other_name apart =
      elim (Bool-cases (hosts.connected host_id)) [
        | inr e ↦ rw e refl
        | inl e ↦ elim (Bool-cases (host_id == other)) [
          | inr e' ↦ rw (e, e') refl
          | inl e' ↦
              let same : host_id ≡ other = (==_iff host_id other).0 e' in
              let kept =
                stop_and_remove-keeps docker (hosts.daemon host_id) name other_name
                  (rw e' at apart) in
              rw (e, e') (ap is_on kept ∙ ap (λ h. runs_on hosts h other_name) same)
        ]
      ]

  unfoldable pub running_on : Hosts → (host_id : ℕ) → (name : String) → AppResult Bool
  unfolding is_running
  running_on hosts host_id name =
      if hosts.connected host_id && hosts.answers host_id
      then elim (is_running docker (hosts.daemon host_id) name) [
        | ok on ↦ ok on
        | err message ↦ err (AppError.container_unavailable message)
      ]
      else err AppError.agent_unavailable

  -- The hosts with their agents are what the routes rely on.
  abbrev pub agents : Agents
  agents = record {
    Machines = Hosts;
    runs = runs_on;
    start = start_on;
    stop_and_remove = stop_on;
    is_running = running_on;
    installer = install_container_name;
    runs-start_ok = runs-start_ok;
    runs-start = runs-start;
    runs-stop_ok = runs-stop_ok;
    runs-stop = runs-stop;
  }
