-- ===== src/Protocol/Heartbeat/Limits.antt =====
-- protocol/v1/models.go: what ValidateHeartbeat checks of a heartbeat, as a record.
use homelab_inventory_agent.Prelude.{
  ◌≤◌, length, false, Option, none, some, Float, is_nan, is_inf, is_negative, ◌≡◌, ◌≢◌, All, ◌⊎◌,
}
use homelab_inventory_agent.Protocol.Types.{Heartbeat, HeartbeatState, StateFamily, Metrics}
use homelab_inventory_agent.Services.Valid.{Fits}
use homelab_inventory_agent.Protocol.Bounded.Spec.{NodesBounded, height}
use homelab_inventory_agent.Protocol.Heartbeat.{
  family_revision, family_length, family_removed, removed_length, metrics_value, load_average,
}
use homelab_inventory_agent.Protocol.Heartbeat.Records.{gauges}

-- A family without a revision carries nothing, and none carries more than 512 entries.
pub record FamilyFits {T : Type 0} (f : Option (StateFamily T)) : Type 0 where
  pub numbered : family_revision f ≡ 0 → (family_length f ≡ 0) × (family_removed f ≡ none)
  pub few_changed : family_length f ≤ 512
  pub few_removed : removed_length (family_removed f) ≤ 512

abbrev pub StateFits : Option HeartbeatState → Type 0
StateFits none = Unit
StateFits (some s) =
    FamilyFits s.services
    × FamilyFits s.containers
    × FamilyFits s.filesystems
    × FamilyFits s.gpus
    × FamilyFits s.sensors
    × FamilyFits s.system
    × FamilyFits s.storage_health

-- A gauge that is present is finite and not negative.
abbrev pub GaugeFits : Option Float → Type 0
GaugeFits none = Unit
GaugeFits (some x) = (is_nan x ≡ false) × (is_inf x ≡ false) × (is_negative x ≡ false)

-- A load average is finite and not negative.
abbrev pub LoadFits : Float → Type 0
LoadFits x = (is_nan x ≡ false) × (is_inf x ≡ false) × (is_negative x ≡ false)

-- The lists of the metrics.
pub record Collected (m : Metrics) : Type 0 where
  pub few_filesystems : length m.filesystems ≤ 64
  pub few_disks : length m.disk_io ≤ 128
  pub few_networks : length m.network ≤ 128
  pub few_sensors : length m.sensors ≤ 256
  pub few_batteries : length m.batteries ≤ 16
  pub few_gpus : length m.gpus ≤ 16

pub record Accepted (h : Heartbeat) : Type 0 where
  pub sequenced : (h.sequence ≢ 0) × (h.collected_at ≢ 0)
  pub few_records :
      (length h.services ≤ 512)
      × (length h.containers ≤ 256)
      × (length h.storage_health ≤ 64)
      × (length h.capabilities ≤ 64)
  pub state_fits : StateFits h.state
  pub metrics_fit : (height (metrics_value h.metrics) ≤ 6) × NodesBounded (metrics_value h.metrics)
  pub load_counted : (length h.metrics.load_average ≡ 0) ⊎ (length h.metrics.load_average ≡ 3)
  pub load_fits : All LoadFits h.metrics.load_average
  pub collected : Collected h.metrics
  pub services_fit : All Fits h.services
  pub gauges_fit : All (λ c. All GaugeFits (gauges c)) h.containers
