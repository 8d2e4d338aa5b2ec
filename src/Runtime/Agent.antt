-- ===== src/Runtime/Agent.antt =====
-- internal/runtime/agent.go: the contract, the policy, the transmission of the queue and the hardware
-- snapshot. The queue's directory, the identity's and the one of the other state files are three.
pub mod Policy
pub mod Contracts
use homelab_inventory_agent.Prelude.{
  ℕ, ◌==◌, ◌&&◌, not, ltb, leb, List, [], ◌∷◌, Text, codes, text_eq, is_empty, length, Bool, true,
  false, Option, none, some, Result, ok, err, wrap, if◌then◌else◌,
}
use homelab_inventory_agent.Exec.{Exec, pure, raise, lift, get, check, zoom, ◌>>=◌, ◌>>◌}
use homelab_inventory_agent.Os.{Dir}
use homelab_inventory_agent.Assoc
use homelab_inventory_agent.Buffer.{
  Json, Q, Queue, QueueError, Entry, entries_locked, remove_entry, acknowledge_dropped, set_limits,
}
use homelab_inventory_agent.Identity.{Identity, IdentityError, Codec, M, reserve_sequence}
use homelab_inventory_agent.Protocol.Types.{
  HostRef, Contract, MonitoringConfig, HardwareSnapshot, Activation,
}
use homelab_inventory_agent.Protocol.Monitoring.{MonitoringError, validate_monitoring_config}
use homelab_inventory_agent.Protocol.Snapshot.{SnapshotError, validate_hardware_snapshot}
use homelab_inventory_agent.Transport.{
  Net, N, Wire, HttpError, ClientError, http, HeartbeatResponse, TelemetryAcknowledgement,
  ActivationResponse, send_heartbeat, send_hardware_snapshot, fetch_contract,
}
use homelab_inventory_agent.Transport
use homelab_inventory_agent.Identity
use homelab_inventory_agent.Runtime.Delta.{FamilySyncState, empty_family}
use homelab_inventory_agent.Runtime.Stores.{
  S, StoreError, schema_incompatible, CachedContract, TelemetrySyncState, load_contract_cache,
  write_contract_cache, write_monitoring_config, write_telemetry_sync_state, mark_dormant, dormant,
}

pub record Agent : Type 0 where
  pub host : HostRef
  pub identity : Identity
  pub queue : Queue
  pub net : Net
  pub state : Dir
  pub monitoring : MonitoringConfig
  pub telemetry : TelemetrySyncState

pub data AgentError : Type 0 where
  registration_revoked host_mismatch snapshot_too_large not_modified_uncached : AgentError
  nil_map_panic context_cancelled : AgentError
  client : ClientError → AgentError
  store : StoreError → AgentError
  queue_failed : QueueError → AgentError
  identity_failed : IdentityError → AgentError
  policy_invalid : MonitoringError → AgentError
  snapshot_invalid : SnapshotError → AgentError

-- Code that is not the agent's: JSON, the network's encodings, and what a compressed body says it
-- dropped, if it can be read.
pub record Codecs : Type 0 where
  pub wire : Wire
  pub policies : Json MonitoringConfig
  pub contracts : Json CachedContract
  pub telemetry : Json TelemetrySyncState
  pub counts : Json ℕ
  pub identities : Codec
  pub snapshots : Json HardwareSnapshot
  pub decode_dropped : Text → Option ℕ
  pub dormant_body : Text

abbrev pub R : Type 0 → Type 0
R = Exec Agent AgentError

unfoldable pub on_state : {A : Type 0} → S A → R A
on_state = zoom (λ a. a.state) (λ d a. record a { state = d }) store

unfoldable pub on_queue : {A : Type 0} → Q A → R A
on_queue = zoom (λ a. a.queue) (λ q a. record a { queue = q }) queue_failed

unfoldable pub on_identity : {A : Type 0} → M A → R A
on_identity = zoom (λ a. a.identity) (λ i a. record a { identity = i }) identity_failed

unfoldable pub on_net : {A : Type 0} → N A → R A
on_net = zoom (λ a. a.net) (λ n a. record a { net = n }) client

unfoldable pub set_monitoring : MonitoringConfig → R (Unit {0})
set_monitoring config a = (ok tt, record a { monitoring = config })

unfoldable pub set_telemetry : TelemetrySyncState → R (Unit {0})
set_telemetry telemetry a = (ok tt, record a { telemetry = telemetry })

-- effectiveContract
unfoldable pub effective_contract : MonitoringConfig → Contract → Contract
effective_contract m c =
    if ltb 0 m.revision && m.enabled
    then record c {
      collection = record c.collection { service_interval_seconds = m.service_interval_seconds };
    }
    else c

-- Whether a registration was revoked, and whether a heartbeat had arrived before.
abbrev is_http : ℕ → Text → ClientError → Bool
is_http status code (http e) = (e.status_code == status) && text_eq e.code code
is_http status code e = false

abbrev no_response : HeartbeatResponse
no_response = record {
  is_ok = false;
  received_at = [];
  sequence = 0;
  monitoring_config = none;
  telemetry = none;
}

abbrev or_unread : Option ℕ → ℕ
or_unread none = 0
or_unread (some n) = n

abbrev clear_time : Option FamilySyncState → FamilySyncState
clear_time none = empty_family
clear_time (some s) = record s { last_full_at = 0 }

unfoldable pub reconcile_all :
    List Text → List (Text × FamilySyncState) → List (Text × FamilySyncState)
reconcile_all [] m = m
reconcile_all (k ∷ ks) m = reconcile_all ks (Assoc.set k (clear_time (Assoc.get m k)) m)

abbrev reconciled_families :
    List Text
    → Option (List (Text × FamilySyncState))
    → Result AgentError (Option (List (Text × FamilySyncState)))
reconciled_families [] m = ok m
reconciled_families (k ∷ ks) none = err nil_map_panic
reconciled_families (k ∷ ks) (some m) = ok (some (reconcile_all (k ∷ ks) m))

abbrev reconciled :
    TelemetryAcknowledgement
    → TelemetrySyncState
    → Option (List (Text × FamilySyncState))
    → TelemetrySyncState
reconciled t state families = record {
  version = state.version;
  capabilities_hash = if t.request_capabilities then [] else state.capabilities_hash;
  families = families;
}

module _ (codecs : Codecs) where
  -- A policy is applied once it is written, and only when it is newer.
  unfoldable pub apply_monitoring_config : MonitoringConfig → R (Unit {0})
  apply_monitoring_config config = do
    check (wrap policy_invalid (validate_monitoring_config config))
    a ← get
    if leb config.revision a.monitoring.revision
        then pure tt
        else do on_state (write_monitoring_config codecs.policies config); set_monitoring config

  abbrev pub apply_policy : Option MonitoringConfig → R (Unit {0})
  apply_policy none = pure tt
  apply_policy (some config) = apply_monitoring_config config

  unfoldable pub reconcile_telemetry : TelemetryAcknowledgement → R (Unit {0})
  reconcile_telemetry t = if not t.request_capabilities && is_empty t.reconcile then pure tt else do
    a ← get
    families ← lift (reconciled_families t.reconcile a.telemetry.families)
    let next = reconciled t a.telemetry families
    set_telemetry next
    on_state (write_telemetry_sync_state codecs.telemetry next)

  abbrev pub apply_telemetry : Option TelemetryAcknowledgement → R (Unit {0})
  apply_telemetry none = pure tt
  apply_telemetry (some t) = reconcile_telemetry t

  -- What a heartbeat's answer means: a revoked agent is marked, a replayed heartbeat has arrived.
  abbrev pub on_answer : Result AgentError HeartbeatResponse → R HeartbeatResponse
  on_answer (ok r) = pure r
  on_answer (err (client e)) =
      if is_http 410 (codes "agent-registration-revoked") e
      then (do on_state (mark_dormant codecs.dormant_body); raise registration_revoked)
      else if is_http 409 (codes "replayed-agent-request") e
      then pure no_response
      else raise (client e)
  on_answer (err e) = raise e

  unfoldable pub send_entry : Entry → R HeartbeatResponse
  send_entry e a =
      let (r, a') =
        on_net
          (send_heartbeat codecs.wire a.host a.identity.device_id a.identity.private_key e.sequence
            e.body)
          a in
      on_answer r a'

  unfoldable pub flush_entry : Entry → R (Unit {0})
  flush_entry e = do
    response ← send_entry e
    apply_policy response.monitoring_config
    apply_telemetry response.telemetry
    on_queue (remove_entry e.sequence)
    on_queue (acknowledge_dropped codecs.counts (or_unread (codecs.decode_dropped e.body)))

  unfoldable pub flush_all : List Entry → R (Unit {0})
  flush_all [] = pure tt
  flush_all (e ∷ es) = do flush_entry e; flush_all es

  unfoldable pub flush : R (Unit {0})
  flush = do entries ← on_queue entries_locked; flush_all entries

  unfoldable pub apply_contract_limits : Contract → R (Unit {0})
  apply_contract_limits c = do
    dropped ← on_queue (
        set_limits codecs.counts
          (record { samples = c.limits.offline_samples; bytes = c.limits.offline_bytes }))
    pure tt

  -- A cache of another bundle counts as none.
  abbrev pub or_no_cache :
      Result StoreError (Option CachedContract) → Result AgentError (Option CachedContract)
  or_no_cache (ok c) = ok c
  or_no_cache (err schema_incompatible) = ok none
  or_no_cache (err e) = err (store e)

  unfoldable pub cached_contract : R (Option CachedContract)
  cached_contract a =
      let (r, d) = load_contract_cache codecs.contracts codecs.wire.is_compatible a.state in
      (or_no_cache r, record a { state = d })

  abbrev pub limited : Contract → R Contract
  limited c = do apply_contract_limits c; pure c

  abbrev pub from_cache : AgentError → Option CachedContract → R Contract
  from_cache e none = raise e
  from_cache e (some c) = limited c.contract

  abbrev pub is_http_error : ClientError → Bool
  is_http_error (http e) = true
  is_http_error e = false

  -- Without an answer, the cached contract serves, unless the caller gave up.
  abbrev pub on_fetched :
      Bool → Option CachedContract → Result AgentError (Option (Contract × Text)) → R Contract
  on_fetched cancelled cached (ok none) = from_cache not_modified_uncached cached
  on_fetched cancelled cached (ok (some (c, etag))) = do
    on_state (write_contract_cache codecs.contracts (record { etag = etag; contract = c }))
    limited c
  on_fetched cancelled cached (err (client e)) =
      if cancelled
      then raise context_cancelled
      else if is_http_error e
      then raise (client e)
      else from_cache (client e) cached
  on_fetched cancelled cached (err e) = raise e

  abbrev pub etag_of : Option CachedContract → Text
  etag_of none = []
  etag_of (some c) = c.etag

  unfoldable pub fetched : Bool → Option CachedContract → R Contract
  fetched cancelled cached a =
      let (r, a') = on_net (fetch_contract codecs.wire (etag_of cached)) a in
      on_fetched cancelled cached r a'

  -- Contract
  unfoldable pub current_contract : Bool → R Contract
  current_contract cancelled = do cached ← cached_contract; fetched cancelled cached

  -- Activate, given the body of the request, which holds the public key.
  unfoldable pub activate : Text → Activation → R (Unit {0})
  activate token activation = do
    a ← get
    if not (a.identity.device_id == 0) then pure tt else do
      result ← on_net (Transport.activate codecs.wire a.host token activation)
      on_identity (Identity.activate codecs.identities result.device_id)

  -- SubmitHardwareSnapshot
  abbrev pub is_dormant : R Bool
  is_dormant a = let (b, d) = dormant a.state in (ok b, record a { state = d })

  unfoldable pub submit_hardware_snapshot : HardwareSnapshot → R (Unit {0})
  submit_hardware_snapshot snapshot = do
    asleep ← is_dormant
    check (if asleep then some registration_revoked else none)
    a ← get
    check (
        if text_eq snapshot.host.type a.host.type && snapshot.host.id == a.host.id
        then none
        else some host_mismatch)
    check (wrap snapshot_invalid (validate_hardware_snapshot snapshot))
    check (
        if ltb 2_097_152 (length (codecs.snapshots.marshal snapshot))
        then some snapshot_too_large
        else none)
    sequence ← on_identity (reserve_sequence codecs.identities)
    on_net (
        send_hardware_snapshot codecs.wire a.host a.identity.device_id a.identity.private_key
          sequence (codecs.snapshots.marshal snapshot))
