-- ===== src/Runtime/Stores.antt =====
-- internal/runtime: the files of the state directory. monitoring_config.go, contract_cache.go, the
-- load and write functions of telemetry_delta.go, and the dormant mark of agent.go.
use homelab_inventory_agent.Prelude.{
  List, [], ◌∷◌, ◌++◌, Text, codes, Bool, true, false, Option, none, some, Result, ok, err, ℤ,
  equals, wrap, if◌then◌else◌,
}
use homelab_inventory_agent.Exec.{Exec, check, map_error, ◌>>◌}
use homelab_inventory_agent.Os.{
  Node, file, directory, Dir, OsError, not_exist, op_failed, Io, read_file, stat, write, rename,
  remove, plain,
}
use homelab_inventory_agent.Os.Atomic.{atomic_write}
use homelab_inventory_agent.Buffer.{Json}
use homelab_inventory_agent.Protocol.Types.{Contract, MonitoringConfig}
use homelab_inventory_agent.Protocol.Contract.{ContractError, validate_contract}
use homelab_inventory_agent.Protocol.Monitoring.{MonitoringError, validate_monitoring_config}
use homelab_inventory_agent.Runtime.Delta.{FamilySyncState}

pub data StoreError : Type 0 where
  decode_failed schema_incompatible : StoreError
  monitoring_invalid : MonitoringError → StoreError
  contract_invalid : ContractError → StoreError
  os : OsError → StoreError

abbrev pub S : Type 0 → Type 0
S = Exec Dir StoreError

-- An os call, its error wrapped.
unfoldable pub io : {A : Type 0} → Io A → S A
io m d = let (r, d') = m d in (map_error os r, d')

abbrev pub newline_behind : Text → Text
newline_behind body = body ++ b'\n' ∷ []

abbrev pub monitoring_name : Text
monitoring_name = codes "monitoring-config.json"

abbrev pub contract_name : Text
contract_name = codes "contract.json"

abbrev pub telemetry_name : Text
telemetry_name = codes "telemetry-sync.json"

abbrev pub dormant_name : Text
dormant_name = codes "dormant.json"

-- No file is the zero value; any other failure is an error.
abbrev pub or_zero :
    {A : Type 0} → A → (Text → Result StoreError A) → Result OsError Text → Result StoreError A
or_zero zero_value decode (ok body) = decode body
or_zero zero_value decode (err not_exist) = ok zero_value
or_zero zero_value decode (err op_failed) = err (os op_failed)

unfoldable pub load : {A : Type 0} → Text → A → (Text → Result StoreError A) → S A
load name zero_value decode d = let (r, d') = read_file name d in (or_zero zero_value decode r, d')

-- MonitoringConfig
abbrev pub zero_monitoring : MonitoringConfig
zero_monitoring = record {
  revision = 0;
  enabled = false;
  service_interval_seconds = ℤ.pos 0;
  selected_services = [];
  selected_containers = [];
}

abbrev valid_monitoring :
    MonitoringConfig → Option MonitoringError → Result StoreError MonitoringConfig
valid_monitoring config none = ok config
valid_monitoring config (some e) = err (monitoring_invalid e)

abbrev decode_monitoring : Option MonitoringConfig → Result StoreError MonitoringConfig
decode_monitoring none = err decode_failed
decode_monitoring (some config) = valid_monitoring config (validate_monitoring_config config)

unfoldable pub load_monitoring_config : Json MonitoringConfig → S MonitoringConfig
unfolding load
load_monitoring_config json =
    load monitoring_name zero_monitoring (λ body. decode_monitoring (json.unmarshal body))

unfoldable pub write_monitoring_config : Json MonitoringConfig → MonitoringConfig → S (Unit {0})
unfolding io
write_monitoring_config json config = do
  check (wrap monitoring_invalid (validate_monitoring_config config))
  io (
      atomic_write (codes ".monitoring-config-") monitoring_name
        (newline_behind (json.marshal config)))

-- cachedContract; `none` is the empty cache, whose contract has major 0.
pub record CachedContract : Type 0 where
  pub etag : Text
  pub contract : Contract

abbrev pub check_cached :
    (Text → Bool)
    → CachedContract
    → Option ContractError
    → Result StoreError (Option CachedContract)
check_cached is_compatible c (some e) = err (contract_invalid e)
check_cached is_compatible c none =
    if is_compatible c.contract.schema_bundle_digest then ok (some c) else err schema_incompatible

abbrev pub decode_cached :
    (Text → Bool) → Option CachedContract → Result StoreError (Option CachedContract)
decode_cached is_compatible none = err decode_failed
decode_cached is_compatible (some c) = check_cached is_compatible c (validate_contract c.contract)

unfoldable pub load_contract_cache : Json CachedContract → (Text → Bool) → S (Option CachedContract)
unfolding load
load_contract_cache json is_compatible =
    load contract_name none (λ body. decode_cached is_compatible (json.unmarshal body))

-- MkdirAll, then the atomic write.
unfoldable pub write_contract_cache : Json CachedContract → CachedContract → S (Unit {0})
unfolding io
write_contract_cache json c =
    io (do plain; atomic_write (codes ".contract-") contract_name (newline_behind (json.marshal c)))

pub record TelemetrySyncState : Type 0 where
  pub version : ℤ
  pub capabilities_hash : Text
  pub families : Option (List (Text × FamilySyncState))

abbrev pub empty_telemetry_sync_state : TelemetrySyncState
empty_telemetry_sync_state = record {
  version = ℤ.pos 1;
  capabilities_hash = [];
  families = some [];
}

abbrev with_families :
    TelemetrySyncState → Option (List (Text × FamilySyncState)) → TelemetrySyncState
with_families state none = empty_telemetry_sync_state
with_families state (some families) =
    if equals state.version 1 then state else empty_telemetry_sync_state

-- What cannot be read or is of another version starts afresh.
abbrev decode_telemetry : Option TelemetrySyncState → Result StoreError TelemetrySyncState
decode_telemetry none = ok empty_telemetry_sync_state
decode_telemetry (some state) = ok (with_families state state.families)

unfoldable pub load_telemetry_sync_state : Json TelemetrySyncState → S TelemetrySyncState
unfolding load
load_telemetry_sync_state json =
    load telemetry_name empty_telemetry_sync_state (λ body. decode_telemetry (json.unmarshal body))

abbrev or_remove : Text → Result OsError (Unit {0}) × Dir → Result OsError (Unit {0}) × Dir
or_remove temporary (ok u, d) = (ok u, d)
or_remove temporary (err e, d) = (err e, (remove temporary d).1)

-- os.WriteFile beside the target, os.Rename, and the removal of what a failed rename leaves.
unfoldable pub write_and_rename : Text → Text → Io (Unit {0})
write_and_rename name body = do
  write (name ++ codes ".tmp") body
  λ d. or_remove (name ++ codes ".tmp") (rename (name ++ codes ".tmp") name d)

unfoldable pub write_telemetry_sync_state :
    Json TelemetrySyncState → TelemetrySyncState → S (Unit {0})
unfolding io write_and_rename
write_telemetry_sync_state json state =
    io (do plain; write_and_rename telemetry_name (newline_behind (json.marshal state)); plain)

abbrev is_regular : Result OsError Node → Bool
is_regular (ok (file b)) = true
is_regular (ok directory) = false
is_regular (err e) = false

-- dormant: os.Stat finds a regular file.
unfoldable pub dormant : Dir → Bool × Dir
dormant d = let (r, d') = stat dormant_name d in (is_regular r, d')

-- markDormant, with the JSON of the state and the date.
unfoldable pub mark_dormant : Text → S (Unit {0})
unfolding io write_and_rename
mark_dormant body = io (write_and_rename dormant_name body)
