-- ===== src/Protocol/Snapshot.antt =====
-- protocol/v1/models.go: ValidateHardwareSnapshot.
use homelab_inventory_agent.Prelude.{
  [], ◌∷◌, Text, Bool, false, length, is_blank, ltb, leb, ◌==◌, ◌&&◌, ◌||◌, not, all, Option,
  first_failed, check_all, reject_if, ◌then_check◌, wrap, equals,
}
use homelab_inventory_agent.Protocol.Value.{dict_value}
use homelab_inventory_agent.Protocol.Types.{HardwareSnapshot, HardwareComponent, current_major}
use homelab_inventory_agent.Protocol.Bounded.{ValueError, validate_bounded_value}
use homelab_inventory_agent.Protocol.Contract.{HostError, validate_host_ref}

pub data SnapshotError : Type 0 where
  unsupported_major collected_at_required component_count kind_invalid : SnapshotError
  locator_invalid values_invalid : SnapshotError
  host_invalid : HostError → SnapshotError
  component_value : ValueError → SnapshotError

-- ^[a-z][a-z0-9-]{0,63}$
unfoldable pub is_component_kind : Text → Bool
is_component_kind [] = false
is_component_kind (c ∷ s) =
    (leb b'a' c && leb c b'z')
    && all (λ d. (leb b'a' d && leb d b'z') || (leb b'0' d && leb d b'9') || d == b'-') s
    && leb (length s) 63

unfoldable pub validate_component : HardwareComponent → Option SnapshotError
unfolding is_component_kind
validate_component c =
    first_failed (
      (not (is_component_kind c.kind), kind_invalid)
      ∷ (is_blank c.locator || ltb 256 (length c.locator), locator_invalid)
      ∷ (length c.values == 0 || ltb 128 (length c.values), values_invalid)
      ∷ [])
    then_check wrap component_value (validate_bounded_value (dict_value c.values) 0)

unfoldable pub validate_hardware_snapshot : HardwareSnapshot → Option SnapshotError
unfolding validate_component
validate_hardware_snapshot s =
    reject_if (not (equals s.protocol_major current_major)) unsupported_major
    then_check wrap host_invalid (validate_host_ref s.host)
    then_check first_failed (
        (s.collected_at == 0, collected_at_required)
        ∷ (length s.components == 0 || ltb 1024 (length s.components), component_count)
        ∷ [])
    then_check check_all validate_component s.components
