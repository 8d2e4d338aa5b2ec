-- ===== src/Protocol/Contract.antt =====
-- protocol/v1/models.go: ValidateHostRef and ValidateContract.
pub mod Spec
use homelab_inventory_agent.Prelude.{
  List, ◌||◌, ◌&&◌, not, ltb, ◌==◌, length, text_eq, above, below, equals, Option, first_failed, [],
  ◌∷◌, Bool, max_safe,
}
use homelab_inventory_agent.Protocol.Types.{
  HostRef, host_server, host_nas, host_pc_build, Contract, CollectionPolicy, PayloadLimits,
  PrivacyPolicy, current_major,
}

pub data HostError : Type 0 where
  unsupported_host_type unsafe_host_id : HostError

unfoldable pub is_host_type : HostRef → Bool
is_host_type host =
    text_eq host.type host_server || text_eq host.type host_nas || text_eq host.type host_pc_build

unfoldable pub validate_host_ref : HostRef → Option HostError
validate_host_ref host = first_failed (
    (not (is_host_type host), unsupported_host_type)
    ∷ (host.id == 0 || ltb max_safe host.id, unsafe_host_id)
    ∷ [])

pub data ContractError : Type 0 where
  unsupported_major revision_required digest_required host_interval service_interval : ContractError
  storage_health_interval gpu_interval compressed_limit decompressed_limit : ContractError
  offline_sample_limit offline_byte_limit raw_identifiers : ContractError

-- The checks in order, each with the error that it returns.
unfoldable pub contract_checks : Contract → List (Bool × ContractError)
contract_checks c =
    (not (equals c.protocol_major current_major), unsupported_major)
    ∷ (c.revision == 0 || c.issued_at == 0, revision_required)
    ∷ (not (length c.schema_bundle_digest == 64), digest_required)
    ∷ (below host_interval_seconds 30 || above host_interval_seconds 300, host_interval)
    ∷ (below service_interval_seconds 300 || above service_interval_seconds 3600, service_interval)
    ∷ (
      below storage_health_interval_seconds 1800 || above storage_health_interval_seconds 86400,
      storage_health_interval,
    )
    ∷ (below gpu_sample_interval_seconds 3 || above gpu_sample_interval_seconds 60, gpu_interval)
    ∷ (below compressed_bytes 1024 || above compressed_bytes 1048576, compressed_limit)
    ∷ (below decompressed_bytes 4096 || above decompressed_bytes 4194304, decompressed_limit)
    ∷ (below offline_samples 1 || above offline_samples 1440, offline_sample_limit)
    ∷ (below offline_bytes 1048576 || above offline_bytes 52428800, offline_byte_limit)
    ∷ (c.privacy.raw_hardware_identifiers, raw_identifiers)
    ∷ []
  where
    open c.collection use {
      host_interval_seconds, service_interval_seconds, storage_health_interval_seconds,
      gpu_sample_interval_seconds,
    }
    open c.limits use {compressed_bytes, decompressed_bytes, offline_samples, offline_bytes}

unfoldable pub validate_contract : Contract → Option ContractError
unfolding contract_checks
validate_contract c = first_failed (contract_checks c)
