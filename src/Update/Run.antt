-- ===== src/Update/Run.antt =====
-- internal/agentupdate/update.go: the update run. It asks the release endpoint for a version, replaces
-- the executable and the service file, restarts the service and rolls back if a step fails.
pub mod Rollback
pub mod Installed
pub mod Snapshots
pub mod Concluded
pub mod Released
pub mod Finished
use homelab_inventory_agent.Prelude.{
  ℕ, ◌==◌, ◌&&◌, ◌||◌, not, List, [], ◌∷◌, ◌++◌, Text, codes, text_eq, is_empty, trim_space, Bool,
  true, false, Option, none, some, Result, ok, err, ℤ, equals, below, if◌then◌else◌, reject_if,
}
use homelab_inventory_agent.Exec.{Exec, pure, raise, lift, check, map_error, continue, ◌>>=◌, ◌>>◌}
use homelab_inventory_agent.Os.{
  Node, file, Dir, Io, OsError, op_failed, find, stat, read_file, remove, store, call, same,
}
use homelab_inventory_agent.Assoc
use homelab_inventory_agent.Config.{Config, ConfigError, Url, Paths, load_config}
use homelab_inventory_agent.Update.Version.{
  Version, VersionError, Order, less, parse_version, compare_versions,
}
use homelab_inventory_agent.Update.Machine.{
  Machine, UpdateError, ReleaseError, not_privileged, current_invalid, config_invalid,
  unsupported_platform, already_running, lock_failed, release_unsupported, snapshot_failed,
  version_unverified, os, release, versions, stop_failed, binary_failed, service_failed, unhealthy,
  rollback_incomplete, not_restored, U, on_files, on_web, wrapped, attempt,
}
use homelab_inventory_agent.Update.Platform.{
  Platform, PlatformError, SavedFile, output, run_command, wait_for_sustained_health, snapshot_file,
  directory_of, replace_path,
}
use homelab_inventory_agent.Update.Release.{
  Libraries, ReleaseClient, Asset, Manifest, CurrentRelease, new_release_client, current, manifest,
  download, is_parsed,
}

pub record Options : Type 0 where
  pub config_path : Text
  pub current_version : Text
  pub requested : Text
  pub check_only : Bool
  pub prior_redirect : Option (Url → ℕ → Bool)
  pub is_root : Bool
  pub platform : Result PlatformError Platform
  pub lock_path : Text
  pub health_checks : ℤ
  pub health_interval : ℤ

pub record UpdateResult : Type 0 where
  pub current_version : Text
  pub target_version : Text
  pub update_available : Bool
  pub updated : Bool

-- What a run works with once it is set up.
pub record Job : Type 0 where
  pub platform : Platform
  pub client : ReleaseClient
  pub target : Text
  pub manifest_url : Text
  pub checks : ℤ
  pub waits : Bool

-- healthChecks is 3 where it is not given; the interval is then a second where it is not given.
abbrev pub checks_of : Options → ℤ
checks_of o = if equals o.health_checks 0 then ℤ.pos 3 else o.health_checks

abbrev pub waits_of : Options → Bool
waits_of o =
    if equals o.health_interval 0 then equals o.health_checks 0 else not (below o.health_interval 0)

abbrev pub lock_of : Options → Platform → Text
lock_of o p =
    if is_empty o.lock_path
    then directory_of p.binary_path ++ codes ".homelab-inventory-agent-update.lock"
    else o.lock_path

abbrev is_less : Order → Bool
is_less less = true
is_less _ = false

abbrev failed : {A : Type 0} → Result UpdateError A → Bool
failed (ok a) = false
failed (err e) = true

-- The assets by path, a later one over an earlier one.
unfoldable pub assets_by_path : List Asset → List (Text × Asset) → List (Text × Asset)
assets_by_path [] m = m
assets_by_path (item ∷ items) m = assets_by_path items (Assoc.set item.path item m)

abbrev pub find_asset : Option Asset → Result UpdateError Asset
find_asset none = err release_unsupported
find_asset (some item) = ok item

abbrev platform_of : Result PlatformError Platform → Result UpdateError Platform
platform_of (ok p) = ok p
platform_of (err e) = err unsupported_platform

-- os.OpenFile with O_CREATE and O_EXCL: false where the file is there already.
abbrev create_if_new : Option Node → Text → Dir → Result OsError Bool × Dir
create_if_new none path d = (ok true, record d { nodes = store path (file []) d.nodes })
create_if_new (some n) path d = (ok false, d)

unfoldable pub create_exclusive : Text → Io Bool
create_exclusive path = call (λ t d. create_if_new (find path d.nodes) path d) same

abbrev locked : Result OsError Bool → Result UpdateError (Unit {0})
locked (ok true) = ok tt
locked (ok false) = err already_running
locked (err e) = err lock_failed

unfoldable pub take_lock : Text → U (Unit {0})
take_lock path m = let (r, d) = create_exclusive path m.files in (locked r, record m { files = d })

-- `defer os.Remove(lockPath)`
unfoldable pub finally_unlock : {A : Type 0} → Text → U A → U A
finally_unlock path m s = let (r, t) = m s in (r, record t { files = (remove path t.files).1 })

-- atomicWrite of a saved file, if the files were replaced.
unfoldable pub restore : Bool → SavedFile → U (Unit {0})
restore false saved = pure tt
restore true saved = on_files (replace_path saved.path saved.body)

unfoldable pub restart_health : Job → Result UpdateError (Unit {0}) → U (Unit {0})
restart_health job (ok u) = wait_for_sustained_health job.platform.health job.checks job.waits
restart_health job (err e) = pure tt

unfoldable pub rollback : Job → SavedFile → SavedFile → Bool → UpdateError → U (Unit {0})
unfolding restore restart_health
rollback job binary service replaced cause = do
  binary_result ← attempt (restore replaced binary)
  service_result ← attempt (restore replaced service)
  reloaded ← attempt (run_command job.platform.reload)
  restarted ← attempt (run_command job.platform.start)
  healthy ← attempt (restart_health job restarted)
  raise (
      if failed binary_result || failed service_result || failed restarted || failed healthy
      then (if replaced then rollback_incomplete cause else not_restored cause)
      else cause)

-- `if err := m; err != nil { return rollback(err) }`
abbrev pub recover :
    (UpdateError → U (Unit {0}))
    → Result UpdateError (Unit {0}) × Machine
    → Result UpdateError (Unit {0}) × Machine
recover back (ok u, s) = (ok u, s)
recover back (err e, s) = back e s

unfoldable pub or_rollback : (UpdateError → U (Unit {0})) → U (Unit {0}) → U (Unit {0})
or_rollback back m s = recover back (m s)

abbrev verified : Text → Result UpdateError Text → Result UpdateError (Unit {0})
verified target (ok text) =
    if text_eq (trim_space text) target then ok tt else err version_unverified
verified target (err e) = err version_unverified

unfoldable pub verify_version : Platform → Text → U (Unit {0})
verify_version p target m =
    let (r, m') = output (p.binary_path ∷ codes "-version" ∷ []) m in (verified target r, m')

unfoldable pub replace_service : Job → Text → U (Unit {0})
replace_service job body =
    wrapped service_failed (on_files (replace_path job.platform.service_path body))

unfoldable pub replace_binary : Job → Text → U (Unit {0})
replace_binary job body =
    wrapped binary_failed (on_files (replace_path job.platform.binary_path body))

-- The steps behind the replacement of the executable.
unfoldable pub finish : Job → Text → U (Unit {0})
finish job service_body = do
  replace_service job service_body
  verify_version job.platform job.target
  run_command job.platform.reload
  run_command job.platform.start
  wrapped unhealthy (wait_for_sustained_health job.platform.health job.checks job.waits)

-- From the stop of the service on; every later failure rolls back.
unfoldable pub install : Job → Text → Text → SavedFile → SavedFile → U (Unit {0})
install job binary_body service_body binary service = do
  wrapped stop_failed (run_command job.platform.stop)
  or_rollback (rollback job binary service false) (replace_binary job binary_body)
  or_rollback (rollback job binary service true) (finish job service_body)

abbrev pub snapshot : Text → U SavedFile
snapshot path = wrapped (λ e. snapshot_failed) (snapshot_file path)

abbrev to_release : {A : Type 0} → Result ReleaseError A → Result UpdateError A
to_release r = map_error release r

abbrev report : Options → Text → Order → Bool → UpdateResult
report o target order updated = record {
  current_version = o.current_version;
  target_version = target;
  update_available = is_less order;
  updated = updated;
}

module _ (paths : Paths) (decode_config : Text → Option Config) where
  abbrev file_text : Result OsError Text → Option Text
  file_text (ok body) = some body
  file_text (err e) = none

  abbrev config_result : Result ConfigError Config → Result UpdateError Config
  config_result (ok c) = ok c
  config_result (err e) = err (config_invalid e)

  unfoldable pub read_config : Text → U Config
  read_config path m =
      let (r, d) = read_file path m.files in
      (config_result (load_config paths decode_config (file_text r)), record m { files = d })

module _ (lib : Libraries) where
  unfoldable pub install_release : Job → U (Unit {0})
  install_release job = do
    listed ← on_web (manifest lib job.client job.target job.manifest_url)
    binary_asset ←
        lift (find_asset (Assoc.get (assets_by_path listed.assets []) job.platform.binary_asset))
    service_asset ←
        lift (find_asset (Assoc.get (assets_by_path listed.assets []) job.platform.service_asset))
    binary_body ← on_web (download lib job.client job.target binary_asset)
    service_body ← on_web (download lib job.client job.target service_asset)
    binary ← snapshot job.platform.binary_path
    service ← snapshot job.platform.service_path
    install job binary_body service_body binary service

  unfoldable pub choose_target : ReleaseClient → Text → U (Text × Text)
  choose_target client requested =
      if is_empty requested
      then (do found ← on_web (current lib client); pure (found.version, found.manifest_url))
      else pure (requested, [])

  -- The lock is held from here on.
  unfoldable pub locked_install : Options → Job → Order → U UpdateResult
  locked_install o job order = do
    take_lock (lock_of o job.platform)
    finally_unlock (lock_of o job.platform)
        (do install_release job; pure (report o job.target order true))

  unfoldable pub run : Paths → (Text → Option Config) → Options → U UpdateResult
  run paths decode_config o = do
    check (reject_if (not o.is_root) not_privileged)
    check (reject_if (not (is_parsed (parse_version o.current_version))) current_invalid)
    configuration ← read_config paths decode_config o.config_path
    platform ← lift (platform_of o.platform)
    client ← lift (to_release (new_release_client lib configuration.endpoint o.prior_redirect))
    chosen ← choose_target client o.requested
    order ← lift (map_error versions (compare_versions o.current_version chosen.0))
    (if is_empty o.requested && not (is_less order) || o.check_only
        then pure (report o chosen.0 order false)
        else locked_install o
            (record {
              platform = platform;
              client = client;
              target = chosen.0;
              manifest_url = chosen.1;
              checks = checks_of o;
              waits = waits_of o;
            })
            order)
