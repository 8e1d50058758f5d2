-- ===== src/Logs/Registry.antt =====
-- berth-hub/src/deployment_logs.rs: the pumps that are alive, as tasks start and drop them.
use oxde.Prelude.{
  ℕ, ◌+◌, ◌≡◌, refl, Bool, none, some, List, [], ◌∷◌, ◌++◌, Bool-cases, inl, inr, arith, insert,
  string_key, if◌then◌else◌, String, str_eq, eq_iff, empty_map,
}
use oxde.Prelude.Text.{is_some}
use oxde.Logs.{
  LogKind, Files, LogPump, LogRegistry, try_new, try_register, drop_pump, deregister, active,
}

-- How many pumps of a deployment are alive.
abbrev pub pumps_of : (deployment_id : String) → List LogPump → ℕ
pumps_of deployment_id [] = 0
pumps_of deployment_id (pump ∷ alive) =
    (if str_eq pump.deployment_id deployment_id then 1 else 0) + pumps_of deployment_id alive

-- A task starts a pump, or the pump that some task holds is dropped.
pub data PumpStep : LogRegistry × List LogPump → LogRegistry × List LogPump → Type 0 where
  start :
      (registry registered : LogRegistry) (alive : List LogPump) (files files' : Files)
      (id : String) (kind : LogKind) (opens measures : Bool) (pump : LogPump)
      → try_new registry files id kind opens measures ≡ some (registered, files', pump)
      → PumpStep (registry, alive) (registered, pump ∷ alive)
  stop :
      (registry : LogRegistry) (before : List LogPump) (pump : LogPump) (after : List LogPump)
      → PumpStep (registry, before ++ pump ∷ after) (drop_pump registry pump, before ++ after)

pub data PumpSteps : LogRegistry × List LogPump → LogRegistry × List LogPump → Type 0 where
  stay : (s : LogRegistry × List LogPump) → PumpSteps s s
  and_then : {s t u : LogRegistry × List LogPump} → PumpStep s t → PumpSteps t u → PumpSteps s u

-- A deployment is registered exactly if a pump of it is alive, and then one is.
abbrev pub IsRegistered : LogRegistry × List LogPump → Type 0
IsRegistered s = (id : String) → pumps_of id s.1 ≡ (if is_some (active s.0 id) then 1 else 0)

pumps_of-append :
    (id : String) (before : List LogPump) (pump : LogPump) (after : List LogPump)
    → pumps_of id (before ++ pump ∷ after) ≡ pumps_of id (pump ∷ []) + pumps_of id (before ++ after)
pumps_of-append id [] pump after = omega arith
pumps_of-append id (p ∷ before) pump after = omega (arith, pumps_of-append id before pump after)

try_new_registers :
    (registry : LogRegistry) (files : Files) (id : String) (kind : LogKind) (opens measures : Bool)
    {registered : LogRegistry} {files' : Files} {pump : LogPump}
    → try_new registry files id kind opens measures ≡ some (registered, files', pump)
    → (registry id ≡ none) × (registered ≡ insert registry id kind) × (pump.deployment_id ≡ id)
unfolding try_new try_register
try_new_registers registry files id kind opens measures started = ground arith

PumpStep-IsRegistered :
    {s t : LogRegistry × List LogPump} → PumpStep s t → IsRegistered s → IsRegistered t
unfolding active drop_pump deregister
PumpStep-IsRegistered
      (start registry registered alive files files' id kind opens measures pump started) h j =
    let begun = try_new_registers registry files id kind opens measures started in
    let counted = h j in
    rw (begun.1, begun.2)
      (elim (Bool-cases (str_eq id j)) [
        | inl e ↦
            let same : id ≡ j = (eq_iff id j).0 e in
            let none_yet : active registry j ≡ none = rw (← same) (begun.0) in
            rw e (ground (arith, none_yet))
        | inr e ↦ rw e (ground arith)
      ])
PumpStep-IsRegistered (stop registry before pump after) h j = ground (
  arith,
  h j,
  h pump.deployment_id,
  pumps_of-append j before pump after,
  eq_iff pump.deployment_id j,
)

PumpSteps-IsRegistered :
    {s t : LogRegistry × List LogPump} → PumpSteps s t → IsRegistered s → IsRegistered t
PumpSteps-IsRegistered (stay s) h = h
PumpSteps-IsRegistered (and_then step steps) h =
    PumpSteps-IsRegistered steps (PumpStep-IsRegistered step h)

-- Whatever pumps are started and dropped from an empty registry on, and in whatever order, at most
-- one pump of a deployment is alive, and the registry names the deployment exactly while one is.
pub one_pump_each :
    {registry : LogRegistry} {alive : List LogPump}
    → PumpSteps (empty_map, []) (registry, alive)
    → (id : String) → pumps_of id alive ≡ (if is_some (active registry id) then 1 else 0)
unfolding active
one_pump_each steps = PumpSteps-IsRegistered steps (λ id. refl)
