-- ===== src/Agent/Containers.antt =====
-- berth-agent/src/containers.rs: the containers of one machine. Docker (`bollard`) is the parameter
-- `Docker`: a daemon, what it answers, and which containers exist and run afterwards. Containers that
-- exit by themselves meanwhile are not modelled.
pub mod Laws
use Prim.Native.String.{◌++◌ as ◌^^◌}
use oxde.Prelude.{
  ℕ, String, ◌≡◌, Bool, true, false, Option, none, some, List, [], ◌∷◌, str_eq, if◌then◌else◌,
}
use oxde.Prelude.Decimal.{decimal}
use oxde.Prelude.Result.{Result, ok, err}
use oxde.Models.{EnvVar, EnvVarValue}

pub data StartError : Type 0 where
  unavailable start_failed command_failed : String → StartError

pub record RunContainerConfig : Type 0 where
  pub image : String
  pub install_command : Option String
  pub start_command : String
  pub env_vars : List EnvVar
  pub install_timeout : ℕ

pub record CommandExec : Type 0 where
  pub image : String
  pub command : String
  pub env_vars : List EnvVar
  pub timeout : ℕ

-- `ContainerCreateBody`, as far as the callers choose it.
pub record ContainerSpec : Type 0 where
  pub image : String
  pub command : String
  pub env : List String
  pub checkout_dir : String
  pub restarts : Bool

-- How waiting for a container ends.
pub data Waited : Type 0 where
  exited : Waited
  exited_with : (code : ℕ) → (message : String) → Waited
  wait_failed : String → Waited
  timed_out : Waited

-- `running d name` is none for no container; a `false` answer of `stop_container` and
-- `remove_container` is the status 404.
pub record Docker : Type 1 where
  pub Daemon : Type 0
  pub running : Daemon → (name : String) → Option Bool
  pub inspect_container : Daemon → (name : String) → Result (Option Bool) String
  pub inspect_image : Daemon → (image : String) → Bool
  pub create_image : Daemon → (image : String) → Daemon × Result (Unit {0}) String
  pub create_container :
      Daemon → (name : String) → ContainerSpec → Daemon × Result (Unit {0}) String
  pub start_container : Daemon → (name : String) → Daemon × Result (Unit {0}) String
  pub stop_container : Daemon → (name : String) → Daemon × Result Bool String
  pub remove_container : Daemon → (name : String) → Daemon × Result Bool String
  pub wait_container : Daemon → (name : String) → (timeout : ℕ) → Daemon × Waited
  pub inspect-running :
      (d : Daemon) (name : String) {answer : Option Bool}
      → inspect_container d name ≡ ok answer
      → running d name ≡ answer
  pub running-create_image :
      (d : Daemon) (image name : String) → running (create_image d image).0 name ≡ running d name
  pub running-create :
      (d : Daemon) (name : String) (spec : ContainerSpec) (other : String)
      → str_eq name other ≡ false
      → running (create_container d name spec).0 other ≡ running d other
  pub running-create_err :
      (d : Daemon) (name : String) (spec : ContainerSpec) {e : String}
      → (create_container d name spec).1 ≡ err e
      → running (create_container d name spec).0 name ≡ running d name
  pub running-create_ok :
      (d : Daemon) (name : String) (spec : ContainerSpec)
      → (create_container d name spec).1 ≡ ok tt
      → running (create_container d name spec).0 name ≡ some false
  pub running-start :
      (d : Daemon) (name other : String)
      → str_eq name other ≡ false
      → running (start_container d name).0 other ≡ running d other
  pub running-start_err :
      (d : Daemon) (name : String) {e : String}
      → (start_container d name).1 ≡ err e
      → running (start_container d name).0 name ≡ running d name
  pub running-start_ok :
      (d : Daemon) (name : String)
      → (start_container d name).1 ≡ ok tt
      → running (start_container d name).0 name ≡ some true
  pub running-stop :
      (d : Daemon) (name other : String)
      → str_eq name other ≡ false
      → running (stop_container d name).0 other ≡ running d other
  pub running-stop_missing :
      (d : Daemon) (name : String)
      → (stop_container d name).1 ≡ ok false
      → running (stop_container d name).0 name ≡ none
  pub running-remove :
      (d : Daemon) (name other : String)
      → str_eq name other ≡ false
      → running (remove_container d name).0 other ≡ running d other
  pub running-remove_ok :
      (d : Daemon) (name : String) {existed : Bool}
      → (remove_container d name).1 ≡ ok existed
      → running (remove_container d name).0 name ≡ none
  pub running-wait :
      (d : Daemon) (name : String) (timeout : ℕ) (other : String)
      → str_eq name other ≡ false
      → running (wait_container d name timeout).0 other ≡ running d other

abbrev value_text : EnvVarValue → String
value_text (EnvVarValue.plain value) = value
value_text (EnvVarValue.secret value) = value

unfoldable pub env_strings : List EnvVar → List String
env_strings [] = []
env_strings (env_var ∷ env_vars) =
    (env_var.key ^^ ("=" ^^ value_text env_var.value)) ∷ env_strings env_vars

unfoldable pub install_container_name : (parent_name : String) → String
install_container_name parent_name = parent_name ^^ "-install"

unfoldable pub build_container_name : (parent_name : String) → String
build_container_name parent_name = parent_name ^^ "-build"

module _ (docker : Docker) where
  open docker use {
    Daemon, inspect_container, inspect_image, create_image, create_container, start_container,
    stop_container, remove_container, wait_container,
  }

  abbrev is_true : Option Bool → Bool
  is_true none = false
  is_true (some running) = running

  unfoldable pub is_running : Daemon → (name : String) → Result Bool String
  is_running d name = elim (inspect_container d name) [
    | err message ↦ err message
    | ok answer ↦ ok (is_true answer)
  ]

  abbrev is_there : Option Bool → Bool
  is_there none = false
  is_there (some running) = true

  unfoldable pub container_exists : Daemon → (name : String) → Result Bool String
  container_exists d name = elim (inspect_container d name) [
    | err message ↦ err message
    | ok answer ↦ ok (is_there answer)
  ]

  unfoldable pub ensure_image : Daemon → (image : String) → Daemon × Result (Unit {0}) String
  ensure_image d image = if inspect_image d image then (d, ok tt) else create_image d image

  -- A step of a command that may fail, and the step after it.
  unfoldable pub and_then :
      (failure : String → StartError)
      → Daemon × Result (Unit {0}) String
      → (Daemon → Daemon × Result (Unit {0}) StartError)
      → Daemon × Result (Unit {0}) StartError
  and_then failure (d, err message) later = (d, err (failure message))
  and_then failure (d, ok _) later = later d

  unfoldable pub lifted : Daemon × Result (Unit {0}) String → Daemon × Result (Unit {0}) StartError
  lifted done = and_then StartError.start_failed done (λ d. (d, ok tt))

  after_wait :
      (name : String) (timeout : ℕ) → Daemon × Waited → Daemon × Result (Unit {0}) StartError
  after_wait name timeout (d, exited) = (d, ok tt)
  after_wait name timeout (d, exited_with code message) = (
    d,
    err (StartError.command_failed ("command exited " ^^ (decimal code ^^ (": " ^^ message)))),
  )
  after_wait name timeout (d, wait_failed message) = (d, err (StartError.start_failed message))
  after_wait name timeout (d, timed_out) = (
    (stop_container d name).0,
    err (StartError.command_failed ("command timed out after " ^^ (decimal timeout ^^ "s"))),
  )

  -- The removal after the grace period is left out.
  unfoldable pub run_command_to_completion :
      Daemon → (name checkout_dir : String) → CommandExec → Daemon × Result (Unit {0}) StartError
  unfolding after_wait ensure_image env_strings
  run_command_to_completion d name checkout_dir exec =
      and_then StartError.start_failed (ensure_image d exec.image) λ d1.
        and_then StartError.start_failed
          (create_container d1 name (record {
            image = exec.image;
            command = exec.command;
            env = env_strings exec.env_vars;
            checkout_dir = checkout_dir;
            restarts = false;
          }))
          λ d2.
            and_then StartError.start_failed (start_container d2 name)
              λ d3. after_wait name exec.timeout (wait_container d3 name exec.timeout)

  unfoldable pub run_build_command :
      Daemon
      → (parent_name checkout_dir : String) → CommandExec
      → Daemon × Result (Unit {0}) StartError
  run_build_command d parent_name checkout_dir exec =
      run_command_to_completion d (build_container_name parent_name) checkout_dir exec

  unfoldable pub install :
      Daemon
      → (name checkout_dir : String) → RunContainerConfig
      → Option String
      → Daemon × Result (Unit {0}) StartError
  install d name checkout_dir config none = (d, ok tt)
  install d name checkout_dir config (some command) =
      run_command_to_completion d (install_container_name name) checkout_dir (record {
        image = config.image;
        command = command;
        env_vars = config.env_vars;
        timeout = config.install_timeout;
      })

  -- the end of `start`, after the installation
  unfoldable pub create_and_start :
      (name checkout_dir : String)
      → RunContainerConfig
      → Daemon × Result (Unit {0}) StartError
      → Daemon × Result (Unit {0}) StartError
  unfolding env_strings
  create_and_start name checkout_dir config (d, err e) = (d, err e)
  create_and_start name checkout_dir config (d, ok _) =
      and_then StartError.start_failed
        (create_container d name (record {
          image = config.image;
          command = config.start_command;
          env = env_strings config.env_vars;
          checkout_dir = checkout_dir;
          restarts = true;
        }))
        λ d1. lifted (start_container d1 name)

  -- `start` when there is no container of the name
  unfoldable pub start_fresh :
      Daemon
      → (name checkout_dir : String) → RunContainerConfig
      → Daemon × Result (Unit {0}) StartError
  unfolding ensure_image
  start_fresh d name checkout_dir config =
      and_then StartError.start_failed (ensure_image d config.image) λ d1.
        create_and_start name checkout_dir config
          (install d1 name checkout_dir config config.install_command)

  unfoldable pub start :
      Daemon
      → (name checkout_dir : String) → RunContainerConfig
      → Daemon × Result (Unit {0}) StartError
  unfolding is_running container_exists
  start d name checkout_dir config = elim (is_running d name) [
    | err message ↦ (d, err (StartError.unavailable message))
    | ok runs ↦ elim runs [
      | true ↦ (d, ok tt)
      | false ↦ elim (container_exists d name) [
        | err message ↦ (d, err (StartError.unavailable message))
        | ok exists ↦ elim exists [
          | true ↦ lifted (start_container d name)
          | false ↦ start_fresh d name checkout_dir config
        ]
      ]
    ]
  ]

  abbrev removed : Daemon × Result Bool String → Daemon × Result (Unit {0}) String
  removed (d, err message) = (d, err message)
  removed (d, ok existed) = (d, ok tt)

  abbrev stopped : (name : String) → Daemon × Result Bool String → Daemon × Result (Unit {0}) String
  stopped name (d, err message) = (d, err message)
  stopped name (d, ok false) = (d, ok tt)
  stopped name (d, ok true) = removed (remove_container d name)

  -- Missing (already gone) counts as success.
  unfoldable pub stop_and_remove : Daemon → (name : String) → Daemon × Result (Unit {0}) String
  stop_and_remove d name = stopped name (stop_container d name)
