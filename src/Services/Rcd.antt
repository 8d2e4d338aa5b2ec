-- ===== src/Services/Rcd.antt =====
-- internal/collectors/services/rcd.go: the enabled rc.d services of FreeBSD and their state.
pub mod Listing
pub mod Reported
use homelab_inventory_agent.Prelude.{
  ◌&&◌, ◌||◌, not, ltb, List, [], ◌∷◌, Text, codes, text_eq, trim_space, is_empty, length, Bool,
  true, false, Option, none, some, Result, ok, err, if◌then◌else◌, reject_if,
}
use homelab_inventory_agent.Exec.{pure, lift, check, ◌>>=◌, ◌>>◌}
use homelab_inventory_agent.Config.{is_absolute, is_one_of}
use homelab_inventory_agent.Protocol.Types.{Service}
use homelab_inventory_agent.Services.{
  Reply, Commands, ServiceError, command_failed, too_many_services, unsafe_path, unsafe_name,
  Collecting, TextLibrary, run_command, unix_lines, contains, is_under, is_service_name,
}
use homelab_inventory_agent.Services.Names.{sort_by_name}

pub record RcService : Type 0 where
  pub name : Text
  pub classification : Text

unfoldable pub classify_rcd_path : Text → Text
classify_rcd_path path =
    if is_under (codes "/usr/local/etc/rc.d") path
    then codes "user-installed"
    else if is_under (codes "/etc/rc.d") path
    then codes "system"
    else codes "unknown"

abbrev service_command : Text
service_command = codes "/usr/sbin/service"

abbrev pub put_first :
    Bool → RcService → Result ServiceError (List RcService) → Result ServiceError (List RcService)
put_first true s (ok rest) = ok (s ∷ rest)
put_first false s (ok rest) = ok rest
put_first keeps s (err e) = err e

module _ (lib : TextLibrary) where
  -- The paths in turn, with the names seen so far; blank lines and names seen are passed over.
  unfoldable pub list_services : List Text → List Text → Result ServiceError (List RcService)
  list_services seen [] = ok []
  list_services seen (line ∷ lines) =
      let path = trim_space line in
      let name = lib.base path in
      let keeps = not (is_empty path) && not (is_one_of name seen) in
      let rest = list_services (if keeps then name ∷ seen else seen) lines in
      if not (is_empty path) && (not (is_absolute path) || not (text_eq (lib.clean path) path))
      then err unsafe_path
      else if not (is_empty path) && not (is_service_name name)
      then err unsafe_name
      else put_first keeps (record { name = name; classification = classify_rcd_path path }) rest

  abbrev pub says_stopped : Text → Bool
  says_stopped text = contains (codes "not running") text || contains (codes "is stopped") text

  -- The active state and the sub state.
  unfoldable pub state_of : Reply → Text × Text
  state_of reply =
      if not reply.failed
      then (codes "active", codes "running")
      else if says_stopped (lib.to_lower reply.output)
      then (codes "inactive", codes "stopped")
      else if reply.expired
      then (codes "unknown", codes "collection-timeout")
      else (codes "unknown", codes "status-unavailable")

  abbrev pub service_of : RcService → Text × Text → Service
  service_of s (active, sub) = record {
    manager = [];
    name = s.name;
    description = [];
    active_state = active;
    classification = s.classification;
    sub_state = sub;
    enabled = some true;
    memory_current = none;
    memory_peak = none;
    cpu_percent = none;
    restart_count = none;
    task_count = none;
    task_limit = none;
    last_result = none;
    active_entered_at = none;
    inactive_entered_at = none;
  }

  unfoldable pub inspect : List RcService → Collecting (List Service)
  inspect [] = pure []
  inspect (s ∷ services) =
      let rest = inspect services in
      (do
        reply ← run_command (service_command ∷ s.name ∷ codes "onestatus" ∷ [])
        others ← rest
        pure (service_of s (state_of reply) ∷ others))

  unfoldable pub collect : Collecting (List Service)
  collect = do
    reply ← run_command (service_command ∷ codes "-e" ∷ [])
    check (reject_if reply.failed command_failed)
    check (reject_if (ltb 513 (length (unix_lines reply.output))) too_many_services)
    services ← lift (list_services [] (unix_lines reply.output))
    check (reject_if (ltb 512 (length services)) too_many_services)
    inspect (sort_by_name (λ s. s.name) services)
