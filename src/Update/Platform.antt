-- ===== src/Update/Platform.antt =====
-- internal/agentupdate/platform.go: the service managers, their commands, and the files of an update.
-- File modes are not modelled.
pub mod Commands
pub mod Health
use homelab_inventory_agent.Prelude.{
  ℕ, zero, suc, ◌==◌, ◌&&◌, ◌||◌, not, List, [], ◌∷◌, ◌++◌, Text, codes, text_eq, is_empty, Bool,
  true, false, Option, none, some, Result, ok, err, ℤ, pos, negsuc, below, if◌then◌else◌,
}
use homelab_inventory_agent.Exec.{Exec, pure, raise, lift, get, check, ◌>>=◌, ◌>>◌}
use homelab_inventory_agent.Os.{Node, file, directory, Dir, Io, Outcome, stat, read_file}
use homelab_inventory_agent.Os.Atomic.Synced.{synced_write}
use homelab_inventory_agent.Update.Machine.{
  Machine, Event, command, wait, UpdateError, not_regular, command_failed, cancelled,
  unsupported_platform, U, on_files,
}

pub record Platform : Type 0 where
  pub os : Text
  pub arch : Text
  pub binary_path : Text
  pub service_path : Text
  pub binary_asset : Text
  pub service_asset : Text
  pub stop : List Text
  pub reload : List Text
  pub start : List Text
  pub health : List Text

abbrev systemctl : List Text → List Text
systemctl arguments = codes "systemctl" ∷ arguments

abbrev rc_service : Text → List Text
rc_service action = codes "rc-service" ∷ codes "homelab-inventory-agent" ∷ action ∷ []

abbrev freebsd_service : Text → List Text
freebsd_service action = codes "service" ∷ codes "homelab_inventory_agent" ∷ action ∷ []

abbrev pub linux_binary : Text
linux_binary = codes "/usr/local/sbin/homelab-inventory-agent"

abbrev unit_name : Text
unit_name = codes "homelab-inventory-agent.service"

abbrev pub systemd_platform : Text → Platform
systemd_platform arch = record {
  os = codes "linux";
  arch = arch;
  binary_path = linux_binary;
  service_path = codes "/etc/systemd/system/homelab-inventory-agent.service";
  binary_asset = codes "homelab-inventory-agent-linux-" ++ arch;
  service_asset = unit_name;
  stop = systemctl (codes "stop" ∷ unit_name ∷ []);
  reload = systemctl (codes "daemon-reload" ∷ []);
  start = systemctl (codes "restart" ∷ unit_name ∷ []);
  health = systemctl (codes "is-active" ∷ codes "--quiet" ∷ unit_name ∷ []);
}

abbrev pub openrc_platform : Text → Platform
openrc_platform arch = record {
  os = codes "linux";
  arch = arch;
  binary_path = linux_binary;
  service_path = codes "/etc/init.d/homelab-inventory-agent";
  binary_asset = codes "homelab-inventory-agent-linux-" ++ arch;
  service_asset = codes "homelab-inventory-agent.openrc";
  stop = rc_service (codes "stop");
  reload = [];
  start = rc_service (codes "start");
  health = rc_service (codes "status");
}

abbrev pub freebsd_platform : Platform
freebsd_platform = record {
  os = codes "freebsd";
  arch = codes "amd64";
  binary_path = linux_binary;
  service_path = codes "/usr/local/etc/rc.d/homelab_inventory_agent";
  binary_asset = codes "homelab-inventory-agent-freebsd-amd64";
  service_asset = codes "homelab_inventory_agent";
  stop = freebsd_service (codes "stop");
  reload = [];
  start = freebsd_service (codes "restart");
  health = freebsd_service (codes "onestatus");
}

pub data PlatformError : Type 0 where
  architecture_unsupported manager_unsupported several_managers no_manager : PlatformError
  system_unsupported : PlatformError

unfoldable pub linux_platform : Text → Text → Result PlatformError Platform
linux_platform manager arch =
    if not (text_eq arch (codes "amd64")) && not (text_eq arch (codes "arm64"))
    then err architecture_unsupported
    else if text_eq manager (codes "systemd")
    then ok (systemd_platform arch)
    else if text_eq manager (codes "openrc")
    then ok (openrc_platform arch)
    else err manager_unsupported

unfoldable pub detect_linux_service_manager :
    (Text → Bool) → (Text → Bool) → Result PlatformError Text
detect_linux_service_manager directory_exists command_exists =
    if systemd && openrc
    then err several_managers
    else if systemd
    then ok (codes "systemd")
    else if openrc
    then ok (codes "openrc")
    else err no_manager
  where
    systemd : Bool
    systemd = directory_exists (codes "/run/systemd/system") && command_exists (codes "systemctl")

    openrc : Bool
    openrc =
        directory_exists (codes "/run/openrc")
        && command_exists (codes "rc-service")
        && command_exists (codes "rc-update")

abbrev pub on_manager : Text → Result PlatformError Text → Result PlatformError Platform
on_manager arch (ok manager) = linux_platform manager arch
on_manager arch (err e) = err e

-- defaultPlatform, with runtime.GOOS and GOARCH and the two lookups as arguments.
unfoldable pub default_platform :
    Text → Text → (Text → Bool) → (Text → Bool) → Result PlatformError Platform
default_platform system arch directory_exists command_exists =
    if text_eq system (codes "linux")
    then on_manager arch (detect_linux_service_manager directory_exists command_exists)
    else if text_eq system (codes "freebsd")
    then (if text_eq arch (codes "amd64")
        then ok freebsd_platform
        else err architecture_unsupported)
    else err system_unsupported

-- The next outcome of the environment; past the end of the list everything works.
abbrev pub taken : Event → List Outcome → Machine → Outcome × Machine
taken event [] m = (record { failed = false; text = [] }, record m { events = event ∷ m.events })
taken event (o ∷ rest) m = (o, record m { outcomes = rest; events = event ∷ m.events })

unfoldable pub happen : UpdateError → Event → U Text
happen error event m =
    let (o, m') = taken event m.outcomes m in (if o.failed then err error else ok o.text, m')

-- runner.Output
unfoldable pub output : List Text → U Text
output argv = happen command_failed (command argv)

unfoldable pub run_command : List Text → U (Unit {0})
run_command [] = pure tt
run_command (name ∷ arguments) = (do
  answer ← happen command_failed (command (name ∷ arguments))
  pure tt)

unfoldable pub wait_interval : U (Unit {0})
wait_interval = do answer ← happen cancelled wait; pure tt

-- The rounds that are left, with a wait between two of them.
unfoldable pub health_rounds : ℕ → Bool → List Text → U (Unit {0})
health_rounds zero waits argv = pure tt
health_rounds (suc n) waits argv =
    let rest = health_rounds n waits argv in
    (do run_command argv; if waits && not (n == 0) then wait_interval else pure tt; rest)

-- `checks < 1` is one round.
abbrev pub rounds_of : ℤ → ℕ
rounds_of (pos zero) = 1
rounds_of (pos (suc n)) = suc n
rounds_of (negsuc n) = 1

unfoldable pub wait_for_sustained_health : List Text → ℤ → Bool → U (Unit {0})
wait_for_sustained_health [] checks waits = pure tt
wait_for_sustained_health (name ∷ arguments) checks waits =
    health_rounds (rounds_of checks) waits (name ∷ arguments)

pub record SavedFile : Type 0 where
  pub path : Text
  pub body : Text

abbrev pub must_be_regular : Node → U (Unit {0})
must_be_regular (file b) = pure tt
must_be_regular directory = raise not_regular

unfoldable pub snapshot_file : Text → U SavedFile
snapshot_file path = do
  node ← on_files (stat path)
  must_be_regular node
  body ← on_files (read_file path)
  pure (record { path = path; body = body })

-- filepath.Dir, with the slash behind it: the text up to the last slash.
abbrev cons_directory : ℕ → Text → Text
cons_directory c [] = if c == b'/' then c ∷ [] else []
cons_directory c (d ∷ s) = c ∷ d ∷ s

unfoldable pub directory_of : Text → Text
directory_of [] = []
directory_of (c ∷ s) = cons_directory c (directory_of s)

abbrev pub update_prefix : Text → Text
update_prefix path = directory_of path ++ codes ".homelab-inventory-agent-update-"

-- atomicWrite of an update
unfoldable pub replace_path : Text → Text → Io (Unit {0})
replace_path path body = synced_write (update_prefix path) path body
