-- ===== src/Protocol/Types.antt =====
-- protocol/v1/models.go: the structs of the wire contract. A Go `int` is an integer, a uint64 a
-- number below 2^64, a time.Time its nanoseconds since year 1 (0 is the zero time), a pointer an
-- `Option`, a map an association list.
use homelab_inventory_agent.Prelude.{ℕ, List, Text, codes, ℤ, Float, Bool, Option}
use homelab_inventory_agent.Protocol.Value.{Dict}

abbrev pub current_major : ℕ
current_major = 1

-- HostType is a string; these are its constants.
abbrev pub host_server : Text
host_server = codes "server"

abbrev pub host_nas : Text
host_nas = codes "nas"

abbrev pub host_pc_build : Text
host_pc_build = codes "pcBuild"

pub record HostRef : Type 0 where
  pub type : Text
  pub id : ℕ

abbrev pub available : Text
available = codes "available"

abbrev pub unavailable : Text
unavailable = codes "unavailable"

abbrev pub permission_blocked : Text
permission_blocked = codes "permission-blocked"

abbrev pub disabled : Text
disabled = codes "disabled"

pub record Capability : Type 0 where
  pub state : Text
  pub detail : Text

pub record CollectionPolicy : Type 0 where
  pub host_interval_seconds : ℤ
  pub service_interval_seconds : ℤ
  pub storage_health_interval_seconds : ℤ
  pub gpu_sample_interval_seconds : ℤ

pub record PayloadLimits : Type 0 where
  pub compressed_bytes : ℤ
  pub decompressed_bytes : ℤ
  pub offline_samples : ℤ
  pub offline_bytes : ℤ

pub record PrivacyPolicy : Type 0 where
  pub containers_enabled : Bool
  pub smart_enabled : Bool
  pub raw_hardware_identifiers : Bool

pub record Contract : Type 0 where
  pub protocol_major : ℤ
  pub revision : ℕ
  pub issued_at : ℕ
  pub schema_bundle_digest : Text
  pub collection : CollectionPolicy
  pub limits : PayloadLimits
  pub privacy : PrivacyPolicy

pub record MonitoringConfig : Type 0 where
  pub revision : ℕ
  pub enabled : Bool
  pub service_interval_seconds : ℤ
  pub selected_services : List Text
  pub selected_containers : List Text

pub record Activation : Type 0 where
  pub protocol_major : ℤ
  pub agent_version : Text
  pub public_key : Text
  pub capabilities : List (Text × Capability)

pub record Metrics : Type 0 where
  pub uptime_seconds : Option Float
  pub load_average : List Float
  pub system : Dict
  pub cpu : Dict
  pub memory : Dict
  pub filesystems : List Dict
  pub disk_io : List Dict
  pub network : List Dict
  pub sensors : List Dict
  pub batteries : List Dict
  pub gpus : List Dict

pub record Service : Type 0 where
  pub manager : Text
  pub name : Text
  pub description : Text
  pub active_state : Text
  pub classification : Text
  pub sub_state : Text
  pub enabled : Option Bool
  pub memory_current : Option ℕ
  pub memory_peak : Option ℕ
  pub cpu_percent : Option Float
  pub restart_count : Option ℕ
  pub task_count : Option ℕ
  pub task_limit : Option ℕ
  pub last_result : Option Text
  pub active_entered_at : Option Text
  pub inactive_entered_at : Option Text

pub record ContainerPort : Type 0 where
  pub host_port : ℕ
  pub container_port : ℕ
  pub protocol : Text

pub record Container : Type 0 where
  pub runtime : Text
  pub runtime_id : Text
  pub name : Text
  pub image : Text
  pub image_digest : Option Text
  pub state : Text
  pub status : Text
  pub uptime : Text
  pub health : Option Text
  pub compose_service : Text
  pub network_mode : Text
  pub network_names : List Text
  pub ports : List ContainerPort
  pub published_ports : List Text
  pub cpu_percent : Option Float
  pub memory_bytes : Option ℕ
  pub network_rx_bytes_per_second : Option Float
  pub network_tx_bytes_per_second : Option Float
  pub disk_read_bytes_per_second : Option Float
  pub disk_write_bytes_per_second : Option Float

pub record StorageHealth : Type 0 where
  pub device_id : Text
  pub kind : Text
  pub state : Text
  pub collected_at : ℕ
  pub metrics : Dict

pub record StateFamily {ℓ} (T : Type ℓ) : Type ℓ where
  pub revision : ℕ
  pub full : Bool
  pub changed : List T
  pub removed : Option (List Text)

pub record HeartbeatState : Type 0 where
  pub services : Option (StateFamily Service)
  pub containers : Option (StateFamily Container)
  pub filesystems : Option (StateFamily Dict)
  pub gpus : Option (StateFamily Dict)
  pub sensors : Option (StateFamily Dict)
  pub system : Option (StateFamily Dict)
  pub storage_health : Option (StateFamily StorageHealth)

pub record HardwareComponent : Type 0 where
  pub kind : Text
  pub locator : Text
  pub values : Dict

pub record HardwareSnapshot : Type 0 where
  pub protocol_major : ℤ
  pub host : HostRef
  pub collected_at : ℕ
  pub components : List HardwareComponent

pub record Heartbeat : Type 0 where
  pub protocol_major : ℤ
  pub sequence : ℕ
  pub agent_version : Text
  pub collected_at : ℕ
  pub host : HostRef
  pub hostname : Text
  pub dropped_samples : ℕ
  pub monitoring_revision : ℕ
  pub capabilities : List (Text × Capability)
  pub capabilities_hash : Text
  pub metrics : Metrics
  pub state : Option HeartbeatState
  pub services : List Service
  pub containers : List Container
  pub storage_health : List StorageHealth
