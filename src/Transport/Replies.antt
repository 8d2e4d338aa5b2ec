-- ===== src/Transport/Replies.antt =====
-- internal/transport/client.go: the answers that the client returns without an error.
use homelab_inventory_agent.Prelude.{
  ℕ, ◌==◌, ◌||◌, not, Text, true, Option, none, some, ok, ◌≡◌, arith, Bool-cases, inl, inr,
  wrap-none,
}
use homelab_inventory_agent.Exec.{>>=-eq-ok, check-eq-ok}
use homelab_inventory_agent.Protocol.Types.{HostRef, Contract, MonitoringConfig}
use homelab_inventory_agent.Protocol.Contract.{validate_host_ref, validate_contract}
use homelab_inventory_agent.Protocol.Contract.Spec.{HasRanges, validate_contract-none_iff}
use homelab_inventory_agent.Protocol.Monitoring.{validate_monitoring_config}
use homelab_inventory_agent.Transport.{
  Net, Wire, HeartbeatResponse, send_heartbeat, check_heartbeat, checked_policy, monitoring_invalid,
  fetch_contract, check_contract,
}

abbrev pub PolicyValid : Option MonitoringConfig → Type 0
PolicyValid none = Unit
PolicyValid (some config) = validate_monitoring_config config ≡ none

policy_valid :
    (wire : Wire) (o : Option MonitoringConfig) → checked_policy wire o ≡ none → PolicyValid o
policy_valid wire none h = tt
policy_valid wire (some config) h = wrap-none monitoring_invalid _ h

heartbeat_checked :
    (wire : Wire) (sequence : ℕ) (r : HeartbeatResponse)
    → check_heartbeat wire sequence r ≡ none
    → (r.is_ok ≡ true) × (r.sequence ≡ sequence) × PolicyValid r.monitoring_config
unfolding check_heartbeat
heartbeat_checked wire sequence r h =
    elim (Bool-cases (not r.is_ok || not (r.sequence == sequence))) [
      | inl bad ↦ ground (arith, rw bad at h)
      | inr good ↦
          (ground arith, ground arith, policy_valid wire r.monitoring_config (rw good at h))
    ]

-- A heartbeat that is answered without an error was sent for a valid host, was accepted for its own
-- sequence number, and brings a valid policy if it brings one.
pub send_heartbeat-answered :
    (wire : Wire) (host : HostRef) (device_id : ℕ) (private_key : Text) (sequence : ℕ) (body : Text)
    (net net' : Net) (r : HeartbeatResponse)
    → send_heartbeat wire host device_id private_key sequence body net ≡ (ok r, net')
    → (validate_host_ref host ≡ none)
      × (r.is_ok ≡ true)
      × (r.sequence ≡ sequence)
      × PolicyValid r.monitoring_config
unfolding send_heartbeat
send_heartbeat-answered wire host device_id private_key sequence body net net' r h =
    let (u, n1, checked_host, h1) = >>=-eq-ok _ _ net h in
    let (text, n2, sent, h2) = >>=-eq-ok _ _ n1 h1 in
    let (answer, n3, read, h3) = >>=-eq-ok _ _ n2 h2 in
    let (v, n4, checked, h4) = >>=-eq-ok _ _ n3 h3 in
    let same : answer ≡ r = ground (arith, h4) in
    let (valid_host, _) = check-eq-ok _ net checked_host in
    let (valid, _) = check-eq-ok _ n3 checked in
    let (accepted, own, policy) = heartbeat_checked wire sequence answer valid in
    (wrap-none _ _ valid_host, rw (← same) accepted, rw (← same) own, rw (← same) policy)

contract_checked :
    (wire : Wire) (c : Contract)
    → check_contract wire c ≡ none
    → (validate_contract c ≡ none) × (wire.is_compatible c.schema_bundle_digest ≡ true)
unfolding check_contract
contract_checked wire c h = ground (arith, h)

-- A contract that the server sends and the client returns has every value in range, and is of a
-- bundle that the agent understands.
pub fetch_contract-HasRanges :
    (wire : Wire) (etag tag : Text) (net net' : Net) (c : Contract)
    → fetch_contract wire etag net ≡ (ok (some (c, tag)), net')
    → HasRanges c × (wire.is_compatible c.schema_bundle_digest ≡ true)
unfolding fetch_contract
fetch_contract-HasRanges wire etag tag net net' c h =
    let (response, n1, sent, h1) = >>=-eq-ok _ _ net h in
    elim (Bool-cases (response.status_code == 304)) [
      | inl unchanged ↦ ground (arith, rw unchanged at h1)
      | inr fresh ↦
          let (body, n2, read, h2) = >>=-eq-ok _ _ n1 (rw fresh at h1) in
          let (contract, n3, decoded, h3) = >>=-eq-ok _ _ n2 h2 in
          let (v, n4, checked, h4) = >>=-eq-ok _ _ n3 h3 in
          let same : contract ≡ c = ground (arith, h4) in
          let (passed, _) = check-eq-ok _ n3 checked in
          let (valid, compatible) = contract_checked wire contract passed in
          (rw (← same) ((validate_contract-none_iff contract).0 valid), rw (← same) compatible)
    ]
