-- ===== src/Services/Openrc.antt =====
-- internal/collectors/services/openrc.go: the OpenRC services. The collector only reads: what the file
-- system answers is a record, by path.
pub mod Texts
pub mod Parts
pub mod Fitting
use homelab_inventory_agent.Prelude.{
  ◌&&◌, ◌||◌, not, ltb, List, [], ◌∷◌, ◌++◌, Text, codes, trim_space, is_empty, length, map, Bool,
  true, false, Option, none, some, Result, ok, err, if◌then◌else◌, reject_if,
}
use homelab_inventory_agent.Exec.{pure, lift, check, ◌>>=◌, ◌>>◌}
use homelab_inventory_agent.Config.{is_one_of}
use homelab_inventory_agent.Assoc
use homelab_inventory_agent.Protocol.Types.{Service}
use homelab_inventory_agent.Services.{
  Reply, Commands, ServiceError, too_many_services, unsafe_name, unreadable, Collecting,
  run_command, is_service_name,
}
use homelab_inventory_agent.Services.Names.{sort_by_name}
use homelab_inventory_agent.Services.Systemd.Properties.{or_empty}
use homelab_inventory_agent.Services.Openrc.Texts.{
  open_rc_description, parse_open_rc_owners, world_of,
}

-- An os.DirEntry: IsDir of the entry, and of its Info where there is one.
pub record Entry : Type 0 where
  pub name : Text
  pub is_dir : Bool
  pub info_is_dir : Option Bool

-- os.ReadDir, os.ReadFile, and whether os.Lstat and os.Stat find a path; filepath.Join and Clean.
pub record Files : Type 0 where
  pub read_dir : Text → Option (List Entry)
  pub read_file : Text → Option Text
  pub lstat : Text → Bool
  pub stat : Text → Bool
  pub join : List Text → Text
  pub clean : Text → Text

-- The directories of run/openrc in order, with the states that they stand for.
abbrev states : List (Text × (Text × Text))
states =
    (codes "started", (codes "active", codes "started"))
    ∷ (codes "starting", (codes "activating", codes "starting"))
    ∷ (codes "stopping", (codes "deactivating", codes "stopping"))
    ∷ (codes "failed", (codes "failed", codes "failed"))
    ∷ (codes "inactive", (codes "inactive", codes "stopped"))
    ∷ []

abbrev is_usable : Option Bool → Bool
is_usable none = false
is_usable (some is_dir) = not is_dir

unfoldable pub unknown_classes : List Text → List (Text × Text) → List (Text × Text)
unknown_classes [] classes = classes
unknown_classes (path ∷ paths) classes =
    unknown_classes paths (Assoc.set path (codes "unknown") classes)

abbrev pub owner_class : List Text → Option Text → Text
owner_class world none = codes "user-installed"
owner_class world (some owner) =
    if is_one_of owner world then codes "user-installed" else codes "system"

unfoldable pub classify_paths :
    List (Text × Text) → List Text → List Text → List (Text × Text) → List (Text × Text)
classify_paths owners world [] classes = classes
classify_paths owners world (path ∷ paths) classes =
    classify_paths owners world paths
      (Assoc.set path (owner_class world (Assoc.get owners path)) classes)

module _ (files : Files) (root : Text) where
  unfoldable pub find_state : Text → List (Text × (Text × Text)) → Text × Text
  find_state name [] = (codes "inactive", codes "stopped")
  find_state name ((directory, state) ∷ rest) =
      let later = find_state name rest in
      if files.lstat (files.join (root ∷ codes "run/openrc" ∷ directory ∷ name ∷ []))
      then state
      else later

  unfoldable pub open_rc_state : Text → Text × Text
  open_rc_state name = find_state name states

  unfoldable pub in_levels : Text → List Entry → Bool
  in_levels name [] = false
  in_levels name (level ∷ levels) =
      let rest = in_levels name levels in
      (level.is_dir
        && files.lstat (files.join (root ∷ codes "etc/runlevels" ∷ level.name ∷ name ∷ [])))
      || rest

  abbrev levels_of : Option (List Entry) → List Entry
  levels_of none = []
  levels_of (some levels) = levels

  unfoldable pub open_rc_enabled : Text → Bool
  open_rc_enabled name =
      in_levels name (levels_of (files.read_dir (files.join (root ∷ codes "etc/runlevels" ∷ []))))

  unfoldable pub read_open_rc_world : List Text
  read_open_rc_world = world_of (files.read_file (files.join (root ∷ codes "etc/apk/world" ∷ [])))

  -- The first apk that is there.
  unfoldable pub find_apk : Option Text
  find_apk =
      if files.stat (files.join (root ∷ codes "sbin/apk" ∷ []))
      then some (codes "/sbin/apk")
      else if files.stat (files.join (root ∷ codes "usr/sbin/apk" ∷ []))
      then some (codes "/usr/sbin/apk")
      else none

  abbrev with_reply : List Text → Reply → Collecting (List (Text × Text))
  with_reply paths reply = pure (
      if reply.failed && is_empty (trim_space reply.output)
      then unknown_classes paths []
      else classify_paths (parse_open_rc_owners files.clean reply.output) read_open_rc_world paths
          (unknown_classes paths []))

  abbrev ask_apk : List Text → Option Text → Collecting (List (Text × Text))
  ask_apk paths none = pure (unknown_classes paths [])
  ask_apk paths (some apk) =
      run_command (apk ∷ codes "info" ∷ codes "--who-owns" ∷ paths) >>= with_reply paths

  unfoldable pub classify : List Text → Collecting (List (Text × Text))
  classify paths = ask_apk paths find_apk

  abbrev put_name : Bool → Text → Result ServiceError (List Text) → Result ServiceError (List Text)
  put_name true name (ok rest) = ok (name ∷ rest)
  put_name false name (ok rest) = ok rest
  put_name keeps name (err e) = err e

  -- The names of the scripts, in the order of the entries.
  unfoldable pub script_names : List Entry → Result ServiceError (List Text)
  script_names [] = ok []
  script_names (entry ∷ entries) =
      let rest = script_names entries in
      if not (is_service_name entry.name)
      then err unsafe_name
      else put_name (is_usable entry.info_is_dir) entry.name rest

  abbrev pub init_path : Text → Text
  init_path name = files.join (codes "/etc/init.d" ∷ name ∷ [])

  abbrev service_of : List (Text × Text) → Text → Text → Service
  service_of classes name body = record {
    manager = codes "openrc";
    name = name;
    description = open_rc_description body;
    active_state = (open_rc_state name).0;
    classification = or_empty (Assoc.get classes (init_path name));
    sub_state = (open_rc_state name).1;
    enabled = some (open_rc_enabled name);
    memory_current = none;
    memory_peak = none;
    cpu_percent = none;
    restart_count = none;
    task_count = none;
    task_limit = none;
    last_result = none;
    active_entered_at = none;
    inactive_entered_at = none;
  }

  abbrev pub put_service :
      List (Text × Text)
      → Text
      → Option Text
      → Result ServiceError (List Service)
      → Result ServiceError (List Service)
  put_service classes name none rest = err unreadable
  put_service classes name (some body) (ok services) = ok (service_of classes name body ∷ services)
  put_service classes name (some body) (err e) = err e

  unfoldable pub read_services : List (Text × Text) → List Text → Result ServiceError (List Service)
  read_services classes [] = ok []
  read_services classes (name ∷ names) =
      let rest = read_services classes names in
      put_service classes name
        (files.read_file (files.join (root ∷ codes "etc/init.d" ∷ name ∷ []))) rest

  abbrev entries_of : Option (List Entry) → Result ServiceError (List Entry)
  entries_of none = err unreadable
  entries_of (some entries) = ok entries

  unfoldable pub collect : Collecting (List Service)
  collect = do
    entries ← lift (entries_of (files.read_dir (files.join (root ∷ codes "etc/init.d" ∷ []))))
    check (reject_if (ltb 512 (length entries)) too_many_services)
    names ← lift (script_names entries)
    classes ← classify (map init_path names)
    lift (read_services classes (sort_by_name (λ name. name) names))
