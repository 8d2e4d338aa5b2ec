-- ===== src/Examples/Messages.antt =====
-- Validation and transport at concrete inputs.
use homelab_inventory_agent.Prelude.{
  ℕ, ◌≤◌, [], ◌∷◌, Text, codes, text_eq, true, false, none, some, ok, pos, ◌≡◌, ◌↔◌, refl, arith,
  map, ◌then_check◌,
}
use homelab_inventory_agent.Exec.{◌>>=◌}
use homelab_inventory_agent.Protocol.Value.{Value, object, field, end, slice, cons, nil, int}
use homelab_inventory_agent.Protocol.Types.{HostRef, Contract, Heartbeat, Metrics}
use homelab_inventory_agent.Protocol.Bounded.{validate_bounded_value}
use homelab_inventory_agent.Protocol.Bounded.Spec.{
  height, NodesBounded, validate_bounded_value-none_iff,
}
use homelab_inventory_agent.Protocol.Contract.{
  validate_contract, contract_checks, validate_host_ref, is_host_type,
}
use homelab_inventory_agent.Protocol.Contract.Spec.{HasRanges}
use homelab_inventory_agent.Transport.{
  Net, Wire, HeartbeatResponse, send, send_signed, signed_request, read_response, send_heartbeat,
  fetch_contract, check_contract, check_heartbeat, to_upper_byte,
}
use homelab_inventory_agent.Transport.Replies.{
  PolicyValid, send_heartbeat-answered, fetch_contract-HasRanges,
}
use homelab_inventory_agent.Transport.Canonical.{OneLine, canonical_request-injective}

abbrev value : Value
value = object (field (codes "cpu") (slice (cons (int (pos 3)) nil)) end)

validate_bounded_value-none_iff_example :
    (validate_bounded_value value 0 ≡ none) ↔ ((height value ≤ 6) × NodesBounded value)
validate_bounded_value-none_iff_example = validate_bounded_value-none_iff value

abbrev contract : Contract
contract = record {
  protocol_major = pos 1;
  revision = 4;
  issued_at = 9;
  schema_bundle_digest = codes "0123456789abcdef0123456789abcdef0123456789abcdef0123456789abcdef";
  collection = record {
    host_interval_seconds = pos 30;
    service_interval_seconds = pos 300;
    storage_health_interval_seconds = pos 1800;
    gpu_sample_interval_seconds = pos 3;
  };
  limits = record {
    compressed_bytes = pos 1024;
    decompressed_bytes = pos 4096;
    offline_samples = pos 1;
    offline_bytes = pos 1_048_576;
  };
  privacy = record {
    containers_enabled = true;
    smart_enabled = true;
    raw_hardware_identifiers = false;
  };
}

abbrev pub host : HostRef
host = record { type = codes "server"; id = 12 }

abbrev response : HeartbeatResponse
response = record {
  is_ok = true;
  received_at = codes "now";
  sequence = 5;
  monitoring_config = none;
  telemetry = none;
}

abbrev key : Text
key = codes "0123456789abcdef0123456789abcdef0123456789abcdef0123456789abcdef"

abbrev pub wire : Wire
wire = record {
  decode_contract = λ t. some contract;
  decode_activation = λ t. none;
  decode_heartbeat = λ t. some response;
  decode_error = λ t. ([], []);
  encode_activation = λ a. [];
  sha256_hex = λ t. codes "ab";
  sign = λ k t. codes "signature";
  base64 = λ t. t;
  status_text = λ n. [];
  timestamp = codes "now";
  bundle_digest = codes "digest";
  is_compatible = λ t. true;
}

abbrev net : Net
net = record {
  answers = some (record { status_code = 200; body = codes "{}"; etag = codes "tag" }) ∷ [];
  sent = [];
}

abbrev heartbeat_sent : Net
heartbeat_sent = (send_heartbeat wire host 7 key 5 (codes "body") net).1

heartbeat_answered :
    send_heartbeat wire host 7 key 5 (codes "body") net ≡ (ok response, heartbeat_sent)
unfolding send_heartbeat send_signed signed_request read_response send check_heartbeat ◌>>=◌
    validate_host_ref text_eq ◌then_check◌ is_host_type
heartbeat_answered = refl

send_heartbeat-answered_example :
    (validate_host_ref host ≡ none)
    × (response.is_ok ≡ true)
    × (response.sequence ≡ 5)
    × PolicyValid response.monitoring_config
send_heartbeat-answered_example =
    send_heartbeat-answered wire host 7 key 5 (codes "body") net heartbeat_sent response
      heartbeat_answered

abbrev contract_read : Net
contract_read = (fetch_contract wire [] net).1

contract_fetched : fetch_contract wire [] net ≡ (ok (some (contract, codes "tag")), contract_read)
unfolding fetch_contract send read_response check_contract ◌>>=◌ validate_contract contract_checks
    ◌then_check◌
contract_fetched = refl

fetch_contract-HasRanges_example :
    HasRanges contract × (wire.is_compatible contract.schema_bundle_digest ≡ true)
fetch_contract-HasRanges_example =
    fetch_contract-HasRanges wire [] (codes "tag") net contract_read contract contract_fetched

abbrev sequence : ℕ
sequence = 8

post_OneLine : OneLine (codes "POST")
post_OneLine = (omega arith, (omega arith, (omega arith, (omega arith, tt))))

path_OneLine : OneLine (codes "/a")
path_OneLine = (omega arith, (omega arith, tt))

canonical_request-injective_example :
    (map to_upper_byte (codes "POST") ≡ map to_upper_byte (codes "POST"))
    × (codes "/a" ≡ codes "/a")
    × (codes "/a" ≡ codes "/a")
    × (sequence ≡ 8)
    × (codes "ab" ≡ codes "ab")
canonical_request-injective_example =
    canonical_request-injective (codes "POST") (codes "POST") (codes "/a") (codes "/a") (codes "/a")
      (codes "/a") (codes "ab") (codes "ab") sequence 8 (post_OneLine, post_OneLine)
      (path_OneLine, path_OneLine) (path_OneLine, path_OneLine) (omega arith) (omega arith) refl

abbrev metrics : Metrics
metrics = record {
  uptime_seconds = none;
  load_average = [];
  system = [];
  cpu = [];
  memory = [];
  filesystems = [];
  disk_io = [];
  network = [];
  sensors = [];
  batteries = [];
  gpus = [];
}

abbrev heartbeat : Heartbeat
heartbeat = record {
  protocol_major = pos 1;
  sequence = 5;
  agent_version = codes "1.0.0";
  collected_at = 9;
  host = host;
  hostname = codes "nas";
  dropped_samples = 0;
  monitoring_revision = 0;
  capabilities = (codes "smart", record { state = codes "available"; detail = [] }) ∷ [];
  capabilities_hash = [];
  metrics = metrics;
  state = none;
  services = [];
  containers = [];
  storage_health = [];
}
