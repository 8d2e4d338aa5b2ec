-- ===== src/Protocol/Heartbeat.antt =====
-- protocol/v1/models.go: ValidateHeartbeat, check by check, and the helpers on state families.
mod Records
pub mod Limits
pub use Records.*
unfoldable pub use Records.{validate_service, validate_container, validate_storage}
use homelab_inventory_agent.Prelude.{
  ℕ, suc, List, [], ◌∷◌, Text, codes, length, is_empty, text_eq, is_blank, ltb, leb, ◌==◌, ◌&&◌,
  ◌||◌, not, all, any, Bool, true, false, Option, none, some, Float, is_nan, is_inf, is_negative,
  first_failed, check_all, reject_if, ◌then_check◌, wrap, equals, if◌then◌else◌,
}
use homelab_inventory_agent.Protocol.Value.{
  Value, float64, slice, nil_pointer, pointer, struct, Items, nil, cons, dict_value, dicts_items,
}
use homelab_inventory_agent.Protocol.Types.{
  Heartbeat, HeartbeatState, StateFamily, Metrics, Capability, current_major, available,
  unavailable, permission_blocked, disabled, Service, Container, StorageHealth,
}
use homelab_inventory_agent.Protocol.Bounded.{ValueError, validate_bounded_value}
use homelab_inventory_agent.Protocol.Contract.{HostError, validate_host_ref}
use Records.{RecordError, validate_service, validate_container, validate_storage}

pub data HeartbeatError : Type 0 where
  unsupported_major sequence_required agent_version collection_limit : HeartbeatError
  capabilities_required capability_limit capability_invalid : HeartbeatError
  family_revision_required family_limit load_average metric_limit : HeartbeatError
  host_invalid : HostError → HeartbeatError
  metric_invalid : ValueError → HeartbeatError
  record_invalid : RecordError → HeartbeatError

unfoldable pub valid_availability : Text → Bool
valid_availability s =
    text_eq s available
    || text_eq s unavailable
    || text_eq s permission_blocked
    || text_eq s disabled

abbrev is_lower : ℕ → Bool
is_lower c = leb b'a' c && leb c b'z'

abbrev is_digit : ℕ → Bool
is_digit c = leb b'0' c && leb c b'9'

-- ^[a-z][a-z0-9.-]{0,63}$
unfoldable pub is_capability_name : Text → Bool
is_capability_name [] = false
is_capability_name (c ∷ s) =
    is_lower c
    && all (λ d. is_lower d || is_digit d || d == b'.' || d == b'-') s
    && leb (length s) 63

-- ^[a-f0-9]{64}$
unfoldable pub is_digest : Text → Bool
is_digest s = length s == 64 && all (λ d. (leb b'a' d && leb d b'f') || is_digit d) s

unfoldable pub validate_capability : Text × Capability → Option HeartbeatError
validate_capability (name, capability) =
    reject_if
      (not (is_capability_name name)
        || not (valid_availability capability.state)
        || ltb 256 (length capability.detail))
      capability_invalid

module _ {T : Type 0} where
  unfoldable pub family_revision : Option (StateFamily T) → ℕ
  family_revision none = 0
  family_revision (some f) = f.revision

  unfoldable pub family_length : Option (StateFamily T) → ℕ
  family_length none = 0
  family_length (some f) = length f.changed

  -- nil or a slice
  unfoldable pub family_removed : Option (StateFamily T) → Option (List Text)
  family_removed none = none
  family_removed (some f) = f.removed

abbrev pub is_some : Option (List Text) → Bool
is_some none = false
is_some (some l) = true

abbrev pub removed_length : Option (List Text) → ℕ
removed_length none = 0
removed_length (some l) = length l

unfoldable pub family_checks : {T : Type 0} → Option (StateFamily T) → List (Bool × HeartbeatError)
family_checks f =
    (
      family_revision f == 0 && (ltb 0 (family_length f) || is_some (family_removed f)),
      family_revision_required,
    )
    ∷ (ltb 512 (family_length f) || ltb 512 (removed_length (family_removed f)), family_limit)
    ∷ []

unfoldable pub validate_family : {T : Type 0} → Option (StateFamily T) → Option HeartbeatError
unfolding family_checks family_revision family_length family_removed
validate_family f = first_failed (family_checks f)

unfoldable pub validate_state : Option HeartbeatState → Option HeartbeatError
unfolding validate_family
validate_state none = none
validate_state (some s) =
    validate_family s.services
    then_check validate_family s.containers
    then_check validate_family s.filesystems
    then_check validate_family s.gpus
    then_check validate_family s.sensors
    then_check validate_family s.system
    then_check validate_family s.storage_health

unfoldable pub validate_load : Float → Option HeartbeatError
validate_load x = reject_if (is_negative x || is_nan x || is_inf x) load_average

abbrev float_items : List Float → Items
float_items [] = nil
float_items (x ∷ xs) = cons (float64 x) (float_items xs)

abbrev pointer_value : Option Float → Value
pointer_value none = nil_pointer
pointer_value (some x) = pointer (float64 x)

-- The struct as reflection walks it, field by field.
abbrev pub metrics_value : Metrics → Value
metrics_value m = struct (
    cons (pointer_value m.uptime_seconds) (
      cons (slice (float_items m.load_average)) (
        cons (dict_value m.system) (
          cons (dict_value m.cpu) (
            cons (dict_value m.memory) (
              cons (slice (dicts_items m.filesystems)) (
                cons (slice (dicts_items m.disk_io)) (
                  cons (slice (dicts_items m.network)) (
                    cons (slice (dicts_items m.sensors)) (
                      cons (slice (dicts_items m.batteries))
                        (cons (slice (dicts_items m.gpus)) nil)))))))))))

unfoldable pub start_checks : Heartbeat → List (Bool × HeartbeatError)
start_checks h =
    (not (equals h.protocol_major current_major), unsupported_major)
    ∷ (h.sequence == 0 || h.collected_at == 0, sequence_required)
    ∷ []

unfoldable pub identity_checks : Heartbeat → List (Bool × HeartbeatError)
identity_checks h =
    (is_blank h.agent_version || ltb 64 (length h.agent_version), agent_version)
    ∷ (
      ltb 255 (length h.hostname)
          || ltb 512 (length h.services)
          || ltb 256 (length h.containers)
          || ltb 64 (length h.storage_health),
      collection_limit,
    )
    ∷ (length h.capabilities == 0 && not (is_digest h.capabilities_hash), capabilities_required)
    ∷ (ltb 64 (length h.capabilities), capability_limit)
    ∷ []

unfoldable pub metric_checks : Metrics → List (Bool × HeartbeatError)
metric_checks m =
    (ltb 64 (length m.filesystems), metric_limit)
    ∷ (ltb 128 (length m.disk_io), metric_limit)
    ∷ (ltb 128 (length m.network), metric_limit)
    ∷ (ltb 256 (length m.sensors), metric_limit)
    ∷ (ltb 16 (length m.batteries), metric_limit)
    ∷ (ltb 16 (length m.gpus), metric_limit)
    ∷ []

unfoldable pub validate_heartbeat : Heartbeat → Option HeartbeatError
unfolding start_checks identity_checks metric_checks
validate_heartbeat h =
    first_failed (start_checks h)
    then_check wrap host_invalid (validate_host_ref h.host)
    then_check first_failed (identity_checks h)
    then_check check_all validate_capability h.capabilities
    then_check validate_state h.state
    then_check reject_if
        (not (length h.metrics.load_average == 0) && not (length h.metrics.load_average == 3))
        load_average
    then_check check_all validate_load h.metrics.load_average
    then_check first_failed (metric_checks h.metrics)
    then_check wrap metric_invalid (validate_bounded_value (metrics_value h.metrics) 0)
    then_check wrap record_invalid (check_all validate_service h.services)
    then_check wrap record_invalid (check_all validate_container h.containers)
    then_check wrap record_invalid (check_all validate_storage h.storage_health)
