-- ===== src/Services/Systemd.antt =====
-- internal/collectors/services/systemd.go: the systemd services, with the CPU share since the last
-- collection. The time is in nanoseconds since the zero time; float64 arithmetic is a parameter.
pub mod Properties
pub mod Classes
pub mod Bounds
use homelab_inventory_agent.Prelude.{
  FloatLibrary, ℕ, zero, suc, ◌-◌, ◌^◌, ◌==◌, ◌&&◌, ◌||◌, not, ltb, leb, List, [], ◌∷◌, Text, codes,
  text_eq, trim_space, is_blank, is_empty, length, Bool, true, false, Option, none, some, Float,
  if◌then◌else◌, reject_if,
}
use homelab_inventory_agent.Exec.{Exec, pure, check, zoom, get, put, ◌>>=◌, ◌>>◌}
use homelab_inventory_agent.Assoc
use homelab_inventory_agent.Decimal.{parse_uint}
use homelab_inventory_agent.Protocol.Types.{Service}
use homelab_inventory_agent.Protocol.Heartbeat.{one_of}
use homelab_inventory_agent.Services.{
  Reply, Commands, ServiceError, command_failed, too_many_services, Collecting, TextLibrary,
  run_command,
}
use homelab_inventory_agent.Services.Systemd.Properties.{
  UnitProperties, or_empty, parse_systemd_properties, property,
}
use homelab_inventory_agent.Services.Systemd.Classes.{unit_name, classify_systemd_units}

pub record Systemd : Type 0 where
  pub commands : Commands
  pub previous_at : ℕ
  pub previous_cpu : List (Text × ℕ)

-- The first bytes of a text.
unfoldable pub take : ℕ → Text → Text
take zero s = []
take (suc n) [] = []
take (suc n) (c ∷ s) = c ∷ take n s

abbrev pub truncate : ℕ → Text → Text
truncate limit s = if ltb limit (length s) then take limit s else s

unfoldable pub enabled_state : Text → Option Bool
enabled_state value =
    if one_of
      (codes "enabled"
        ∷ codes "enabled-runtime"
        ∷ codes "linked"
        ∷ codes "linked-runtime"
        ∷ codes "alias"
        ∷ [])
      value
    then some true
    else if one_of (codes "disabled" ∷ codes "masked" ∷ codes "masked-runtime" ∷ []) value
    then some false
    else none

-- parseOptionalUint
abbrev pub parse_optional_uint : Text → Option ℕ
parse_optional_uint = parse_uint

abbrev pub unless_empty : Text → Option Text
unless_empty t = if is_empty t then none else some t

-- now.Sub(previous): 0 for what is not positive, and at most the largest Duration.
unfoldable pub elapsed_since : ℕ → ℕ → ℕ
elapsed_since previous now = if leb (2 ^ 63) (now - previous) then 2 ^ 63 - 1 else now - previous

abbrev remember : Text → Option ℕ → List (Text × ℕ) → List (Text × ℕ)
remember name none cpus = cpus
remember name (some cpu) cpus = Assoc.set name cpu cpus

-- What is passed over: units without a name of at most 256 bytes or without an active state.
unfoldable pub is_skipped : UnitProperties → Bool
is_skipped unit =
    is_empty (unit_name unit)
    || ltb 256 (length (unit_name unit))
    || is_blank (property (codes "ActiveState") unit)

abbrev pub put_service :
    Bool → Service → List Service × List (Text × ℕ) → List Service × List (Text × ℕ)
put_service true s rest = rest
put_service false s (services, cpus) = (s ∷ services, cpus)

unfoldable pub on_commands : {A : Type 0} → Collecting A → Exec Systemd ServiceError A
on_commands = zoom (λ c. c.commands) (λ d c. record c { commands = d }) (λ e. e)

abbrev show_command : List Text
show_command =
    codes "systemctl"
    ∷ codes "show"
    ∷ codes "--type=service"
    ∷ codes "--all"
    ∷ codes "--no-pager"
    ∷ codes
        "--property=Id,Description,ActiveState,SubState,UnitFileState,FragmentPath,MemoryCurrent,MemoryPeak,CPUUsageNSec,NRestarts,TasksCurrent,TasksMax,Result,ActiveEnterTimestamp,InactiveEnterTimestamp"
    ∷ []

module _ (floats : FloatLibrary) where
  unfoldable pub cpu_share : ℕ → Option ℕ → Option ℕ → Option Float
  cpu_share elapsed none cpu = none
  cpu_share elapsed (some previous) none = none
  cpu_share elapsed (some previous) (some cpu) =
      if leb previous cpu && not (elapsed == 0)
      then some (
          floats.divide
            (floats.multiply (floats.of_integer (cpu - previous)) (floats.of_integer 100))
            (floats.of_integer elapsed))
      else none

  unfoldable pub service_of : ℕ → List (Text × Text) → List (Text × ℕ) → UnitProperties → Service
  service_of elapsed classes cpus unit =
      let name = unit_name unit in
      record {
        manager = [];
        name = name;
        description = truncate 2048 (property (codes "Description") unit);
        active_state = truncate 64 (property (codes "ActiveState") unit);
        classification = or_empty (Assoc.get classes name);
        sub_state = truncate 64 (property (codes "SubState") unit);
        enabled = enabled_state (property (codes "UnitFileState") unit);
        memory_current = parse_optional_uint (property (codes "MemoryCurrent") unit);
        memory_peak = parse_optional_uint (property (codes "MemoryPeak") unit);
        cpu_percent =
            cpu_share elapsed (Assoc.get cpus name)
              (parse_optional_uint (property (codes "CPUUsageNSec") unit));
        restart_count = parse_optional_uint (property (codes "NRestarts") unit);
        task_count = parse_optional_uint (property (codes "TasksCurrent") unit);
        task_limit = parse_optional_uint (property (codes "TasksMax") unit);
        last_result = unless_empty (trim_space (property (codes "Result") unit));
        active_entered_at =
            unless_empty (trim_space (property (codes "ActiveEnterTimestamp") unit));
        inactive_entered_at =
            unless_empty (trim_space (property (codes "InactiveEnterTimestamp") unit));
      }

  -- The services of the units in turn, and the CPU times that are remembered.
  unfoldable pub report_units :
      ℕ
      → List (Text × Text)
      → List UnitProperties
      → List (Text × ℕ)
      → List Service × List (Text × ℕ)
  report_units elapsed classes [] cpus = ([], cpus)
  report_units elapsed classes (unit ∷ units) cpus =
      let cpu = parse_optional_uint (property (codes "CPUUsageNSec") unit) in
      put_service (is_skipped unit) (service_of elapsed classes cpus unit) (
        report_units elapsed classes units
          (if is_skipped unit then cpus else remember (unit_name unit) cpu cpus))

  unfoldable pub finish :
      ℕ → List UnitProperties → List (Text × Text) → Exec Systemd ServiceError (List Service)
  finish now units classes = do
    c ← get
    put (record c {
      previous_at = now;
      previous_cpu =
          (report_units (elapsed_since c.previous_at now) classes units c.previous_cpu).1;
    })
    pure (report_units (elapsed_since c.previous_at now) classes units c.previous_cpu).0

  unfoldable pub collect : TextLibrary → ℕ → Exec Systemd ServiceError (List Service)
  collect lib now = do
    reply ← on_commands (run_command show_command)
    check (reject_if reply.failed command_failed)
    check (reject_if (ltb 512 (length (parse_systemd_properties reply.output))) too_many_services)
    classes ← on_commands (classify_systemd_units lib (parse_systemd_properties reply.output))
    finish now (parse_systemd_properties reply.output) classes
