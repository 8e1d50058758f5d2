-- ===== src/Agent/Podman.antt =====
-- A container daemon on which nothing fails, on which the theorems about containers are tried.
use oxde.Prelude.{
  String, ◌≡◌, refl, Bool, true, false, Option, none, some, Map, insert, remove, string_key, str_eq,
  eq_iff, if◌then◌else◌,
}
use oxde.Prelude.Text.{is_some}
use oxde.Prelude.Result.{Result, ok, err, ok_inj}
use oxde.Agent.Containers.{Docker, exited}

abbrev pub Podman : Type 0
Podman = Map String Bool

abbrev pub off : Option Bool → Option Bool
off none = none
off (some on) = some false

pub same_name : (name : String) → str_eq name name ≡ true
same_name name = (eq_iff name name).1 refl

pub no_container : (o : Option Bool) → is_some o ≡ false → off o ≡ none
no_container none e = refl
no_container (some on) e = cc

pub start_law : (d : Podman) (name : String) → insert d name true name ≡ some true
start_law d name = rw (same_name name) refl

pub create_law : (d : Podman) (name : String) → insert d name false name ≡ some false
create_law d name = rw (same_name name) refl

pub other_law :
    (d : Podman) (name : String) (on : Bool) (other : String)
    → str_eq name other ≡ false
    → insert d name on other ≡ d other
other_law d name on other apart = rw apart refl

abbrev pub stopping : Podman → (name : String) → Podman
stopping d name m = if str_eq name m then off (d name) else d m

pub stopping_other :
    (d : Podman) (name other : String) → str_eq name other ≡ false → stopping d name other ≡ d other
stopping_other d name other apart = rw apart refl

pub stopping_missing :
    (d : Podman) (name : String)
    → ◌≡◌ {A = Result Bool String} (ok (is_some (d name))) (ok false)
    → stopping d name name ≡ none
stopping_missing d name e = rw (same_name name) (no_container (d name) (ok_inj e))

pub removed_law : (d : Podman) (name : String) → remove d name name ≡ none
removed_law d name = rw (same_name name) refl

pub removed_other :
    (d : Podman) (name other : String) → str_eq name other ≡ false → remove d name other ≡ d other
removed_other d name other apart = rw apart refl

pub never_fails :
    {A : Type 0} {a : A} {e : String} {P : Type 0} → ◌≡◌ {A = Result A String} (ok a) (err e) → P
never_fails h = absurd (cc)

abbrev pub podman : Docker
podman = record {
  Daemon = Podman;
  running = λ d name. d name;
  inspect_container = λ d name. ok (d name);
  inspect_image = λ d image. true;
  create_image = λ d image. (d, ok tt);
  create_container = λ d name spec. (insert d name false, ok tt);
  start_container = λ d name. (insert d name true, ok tt);
  stop_container = λ d name. (stopping d name, ok (is_some (d name)));
  remove_container = λ d name. (remove d name, ok (is_some (d name)));
  wait_container = λ d name timeout. (d, exited);
  inspect-running = λ d name e. ok_inj e;
  running-create_image = λ d image name. refl;
  running-create = λ d name spec other apart. other_law d name false other apart;
  running-create_err = λ d name spec e. never_fails e;
  running-create_ok = λ d name spec e. create_law d name;
  running-start = λ d name other apart. other_law d name true other apart;
  running-start_err = λ d name e. never_fails e;
  running-start_ok = λ d name e. start_law d name;
  running-stop = stopping_other;
  running-stop_missing = stopping_missing;
  running-remove = removed_other;
  running-remove_ok = λ d name e. removed_law d name;
  running-wait = λ d name timeout other apart. refl;
}
