-- ===== src/Protocol/Heartbeat/Records.antt =====
-- The per-record checks of ValidateHeartbeat: services, containers, storage health.
use homelab_inventory_agent.Prelude.{
  ℕ, List, [], ◌∷◌, Text, codes, length, text_eq, is_blank, is_empty, ltb, ◌==◌, ◌&&◌, ◌||◌, not,
  Bool, false, Option, none, some, Float, is_nan, is_inf, is_negative, first_failed, check_all,
  reject_if, ◌then_check◌, wrap, any,
}
use homelab_inventory_agent.Protocol.Value.{dict_value}
use homelab_inventory_agent.Protocol.Types.{Service, Container, ContainerPort, StorageHealth}
use homelab_inventory_agent.Protocol.Bounded.{ValueError, validate_bounded_value}

pub data RecordError : Type 0 where
  service_identity service_classification service_telemetry container_identity : RecordError
  container_network_mode container_network_name container_port published_port : RecordError
  container_metric storage_record : RecordError
  storage_metric : ValueError → RecordError

-- `value == "a" || value == "b" || …`
abbrev pub one_of : List Text → Text → Bool
one_of names s = any (λ name. text_eq s name) names

abbrev pub longer : Option Text → ℕ → Bool
longer none k = false
longer (some s) k = ltb k (length s)

-- A gauge that is present is a finite number that is not negative.
abbrev pub bad_gauge : Option Float → Bool
bad_gauge none = false
bad_gauge (some x) = is_nan x || is_inf x || is_negative x

abbrev pub classifications : List Text
classifications = codes "user-installed" ∷ codes "system" ∷ codes "unknown" ∷ []

unfoldable pub validate_service : Service → Option RecordError
validate_service s = first_failed (
    (
      is_blank s.name
          || ltb 256 (length s.name)
          || ltb 2048 (length s.description)
          || is_blank s.active_state
          || ltb 64 (length s.active_state)
          || ltb 64 (length s.sub_state),
      service_identity,
    )
    ∷ (
      not (is_empty s.classification) && not (one_of classifications s.classification),
      service_classification,
    )
    ∷ (
      longer s.last_result 256
          || longer s.active_entered_at 128
          || longer s.inactive_entered_at 128
          || bad_gauge s.cpu_percent,
      service_telemetry,
    )
    ∷ [])

abbrev network_modes : List Text
network_modes = codes "host" ∷ codes "bridge" ∷ codes "none" ∷ codes "custom" ∷ []

unfoldable pub validate_network_name : Text → Option RecordError
validate_network_name s = reject_if (is_blank s || ltb 128 (length s)) container_network_name

unfoldable pub validate_port : ContainerPort → Option RecordError
validate_port p =
    reject_if
      (p.host_port == 0
        || p.container_port == 0
        || not (one_of (codes "tcp" ∷ codes "udp" ∷ codes "sctp" ∷ []) p.protocol))
      container_port

unfoldable pub validate_published_port : Text → Option RecordError
validate_published_port s = reject_if (ltb 128 (length s)) published_port

unfoldable pub validate_gauge : Option Float → Option RecordError
validate_gauge x = reject_if (bad_gauge x) container_metric

abbrev pub gauges : Container → List (Option Float)
gauges c =
    c.cpu_percent ∷ c.network_rx_bytes_per_second ∷ c.network_tx_bytes_per_second
    ∷ c.disk_read_bytes_per_second ∷ c.disk_write_bytes_per_second ∷ []

unfoldable pub container_checks : Container → List (Bool × RecordError)
container_checks c =
    (
      not (one_of (codes "docker" ∷ codes "podman" ∷ []) c.runtime)
          || is_blank c.runtime_id
          || ltb 128 (length c.runtime_id)
          || is_blank c.name
          || ltb 256 (length c.name)
          || is_blank c.image
          || ltb 512 (length c.image)
          || ltb 64 (length c.state)
          || ltb 256 (length c.status)
          || ltb 128 (length c.uptime)
          || ltb 256 (length c.compose_service)
          || ltb 32 (length c.network_names)
          || ltb 128 (length c.ports)
          || ltb 128 (length c.published_ports),
      container_identity,
    )
    ∷ (
      not (is_empty c.network_mode) && not (one_of network_modes c.network_mode),
      container_network_mode,
    )
    ∷ []

unfoldable pub validate_container : Container → Option RecordError
unfolding container_checks validate_network_name validate_port validate_published_port
    validate_gauge
validate_container c =
    first_failed (container_checks c)
    then_check check_all validate_network_name c.network_names
    then_check check_all validate_port c.ports
    then_check check_all validate_published_port c.published_ports
    then_check check_all validate_gauge (gauges c)

abbrev storage_kinds : List Text
storage_kinds = codes "smart" ∷ codes "emmc" ∷ codes "mdraid" ∷ []

abbrev storage_states : List Text
storage_states = codes "healthy" ∷ codes "warning" ∷ codes "failed" ∷ codes "unknown" ∷ []

unfoldable pub validate_storage : StorageHealth → Option RecordError
validate_storage s =
    reject_if
      (ltb (length s.device_id) 16
        || ltb 128 (length s.device_id)
        || not (one_of storage_kinds s.kind)
        || not (one_of storage_states s.state)
        || s.collected_at == 0)
      storage_record
    then_check wrap storage_metric (validate_bounded_value (dict_value s.metrics) 0)
