-- ===== src/Examples/Agents.antt =====
-- The agent at a concrete state, with a server that answers with a new policy.
use homelab_inventory_agent.Prelude.{[], ◌∷◌, codes, true, false, none, some, pos}
use homelab_inventory_agent.Protocol.Types.{MonitoringConfig}
use homelab_inventory_agent.Transport.{HeartbeatResponse}
use homelab_inventory_agent.Runtime.Stores.{zero_monitoring, empty_telemetry_sync_state}
use homelab_inventory_agent.Runtime.Agent.{Agent, Codecs, flush, current_contract}
use homelab_inventory_agent.Runtime.Agent.Policy.{Follows, flush-Follows}
use homelab_inventory_agent.Runtime.Agent.Contracts.{Limited, current_contract-Limited}
use homelab_inventory_agent.Examples.Messages.{wire, host}
use homelab_inventory_agent.Examples.State.{codec, first_identity}
use homelab_inventory_agent.Examples.Queue.{json, queue}

abbrev new_policy : MonitoringConfig
new_policy = record {
  revision = 3;
  enabled = true;
  service_interval_seconds = pos 60;
  selected_services = codes "sshd" ∷ [];
  selected_containers = [];
}

abbrev with_policy : HeartbeatResponse
with_policy = record {
  is_ok = true;
  received_at = codes "now";
  sequence = 1;
  monitoring_config = some new_policy;
  telemetry = none;
}

abbrev codecs : Codecs
codecs = record {
  wire = record wire { decode_heartbeat = λ t. some with_policy };
  policies = record { marshal = λ p. []; unmarshal = λ t. none };
  contracts = record { marshal = λ p. []; unmarshal = λ t. none };
  telemetry = record { marshal = λ p. []; unmarshal = λ t. none };
  counts = json;
  identities = codec;
  snapshots = record { marshal = λ p. []; unmarshal = λ t. none };
  decode_dropped = λ t. some 2;
  dormant_body = codes "{}";
}

abbrev agent : Agent
agent = record {
  host = host;
  identity = first_identity;
  queue = queue;
  net = record {
    answers = some (record { status_code = 200; body = codes "{}"; etag = [] }) ∷ [];
    sent = [];
  };
  state = record { nodes = []; outcomes = [] };
  monitoring = zero_monitoring;
  telemetry = empty_telemetry_sync_state;
}

flush-Follows_example : Follows agent.monitoring (flush codecs agent).1.monitoring
flush-Follows_example = flush-Follows codecs agent

current_contract-Limited_example : Limited codecs (current_contract codecs false agent)
current_contract-Limited_example = current_contract-Limited codecs false agent
