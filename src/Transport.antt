-- ===== src/Transport.antt =====
-- internal/transport/client.go: signed requests and what the client makes of the answers. The network
-- is a list of answers that the environment chose; the requests that went out are kept. JSON, SHA-256,
-- Ed25519, base64 and the clock are parameters.
pub mod Canonical
pub mod Replies
use homelab_inventory_agent.Prelude.{
  ℕ, ◌+◌, ◌-◌, ltb, leb, ◌==◌, ◌&&◌, ◌||◌, not, max_safe, List, [], ◌∷◌, ◌++◌, Text, codes, text_eq,
  is_empty, length, trim_space, map, Bool, true, false, Option, none, some, Result, ok, err, ℤ,
  equals, if◌then◌else◌, wrap,
}
use homelab_inventory_agent.Exec.{Exec, pure, raise, lift, check, ◌>>=◌, ◌>>◌}
use homelab_inventory_agent.Decimal.{format_uint}
use homelab_inventory_agent.Protocol.Types.{
  HostRef, Contract, MonitoringConfig, Activation, current_major,
}
use homelab_inventory_agent.Protocol.Contract.{
  HostError, validate_host_ref, ContractError, validate_contract,
}
use homelab_inventory_agent.Protocol.Monitoring.{MonitoringError, validate_monitoring_config}

abbrev pub max_response_bytes : ℕ
max_response_bytes = 1_048_576

abbrev pub signature_prefix : Text
signature_prefix = codes "homelab-inventory-agent-v1"

pub record HttpError : Type 0 where
  pub status_code : ℕ
  pub code : Text
  pub message : Text

pub record HttpResponse : Type 0 where
  pub status_code : ℕ
  pub body : Text
  pub etag : Text

pub record Request : Type 0 where
  pub method : Text
  pub path : Text
  pub headers : List (Text × Text)
  pub body : Text

pub record ActivationResponse : Type 0 where
  pub device_id : ℕ
  pub protocol_major : ℤ

pub record TelemetryAcknowledgement : Type 0 where
  pub duplicate : Bool
  pub accepted_revisions : List (Text × ℕ)
  pub reconcile : List Text
  pub request_capabilities : Bool

pub record HeartbeatResponse : Type 0 where
  pub is_ok : Bool
  pub received_at : Text
  pub sequence : ℕ
  pub monitoring_config : Option MonitoringConfig
  pub telemetry : Option TelemetryAcknowledgement

-- `unreachable` is an error of http.Client.Do or of reading the body.
pub data ClientError : Type 0 where
  unreachable response_too_large decode_failed signed_input_invalid : ClientError
  activation_invalid heartbeat_invalid bundle_incompatible : ClientError
  http : HttpError → ClientError
  host_invalid : HostError → ClientError
  contract_invalid : ContractError → ClientError
  monitoring_invalid : MonitoringError → ClientError

-- The answers still to come, and the requests sent, the newest first.
pub record Net : Type 0 where
  pub answers : List (Option HttpResponse)
  pub sent : List Request

abbrev pub N : Type 0 → Type 0
N = Exec Net ClientError

-- Code that is not the client's. `decode_error` gives the message of an error body, empty where it is
-- no JSON, and the code that was read. The others: decoders (each with the check for trailing data), digests, the
-- signature, and the time as the header spells it.
pub record Wire : Type 0 where
  pub decode_contract : Text → Option Contract
  pub decode_activation : Text → Option ActivationResponse
  pub decode_heartbeat : Text → Option HeartbeatResponse
  pub decode_error : Text → Text × Text
  pub encode_activation : Activation → Text
  pub sha256_hex : Text → Text
  pub sign : Text → Text → Text
  pub base64 : Text → Text
  pub status_text : ℕ → Text
  pub timestamp : Text
  pub bundle_digest : Text
  pub is_compatible : Text → Bool

-- http.Client.Do
abbrev answer_of : Option HttpResponse → Result ClientError HttpResponse
answer_of none = err unreachable
answer_of (some r) = ok r

abbrev pub next_answer : List (Option HttpResponse) → Result ClientError HttpResponse
next_answer [] = err unreachable
next_answer (a ∷ rest) = answer_of a

abbrev pub later_answers : List (Option HttpResponse) → List (Option HttpResponse)
later_answers [] = []
later_answers (a ∷ rest) = rest

unfoldable pub send : Request → N HttpResponse
send request net = (
  next_answer net.answers,
  record { answers = later_answers net.answers; sent = request ∷ net.sent },
)

-- The message of an error answer: the JSON one, else the body, else the status.
abbrev pick_message : Text → Text → Text → Text
pick_message json_message body status =
    if not (is_empty json_message) then json_message else if is_empty body then status else body

abbrev http_error : (ℕ → Text) → HttpResponse → Text × Text → HttpError
http_error status_text r (message, code) = record {
  status_code = r.status_code;
  code = code;
  message = pick_message message (trim_space r.body) (status_text r.status_code);
}

abbrev pub is_success : ℕ → Bool
is_success status = leb 200 status && ltb status 300

abbrev decoded : {A : Type 0} → Option A → Result ClientError A
decoded none = err decode_failed
decoded (some a) = ok a

abbrev pub to_upper_byte : ℕ → ℕ
to_upper_byte c = if leb b'a' c && leb c b'z' then c - 32 else c

abbrev pub newline : Text
newline = b'\n' ∷ []

-- The text that a request's signature covers.
unfoldable pub canonical_request : Text → Text → Text → ℕ → Text → Text
canonical_request method path timestamp sequence body_digest =
    signature_prefix
    ++ (newline
        ++ (map to_upper_byte method
            ++ (newline
                ++ (path
                    ++ (newline
                        ++ (timestamp
                            ++ (newline ++ (format_uint sequence ++ (newline ++ body_digest)))))))))

abbrev pub host_path : HostRef → Text → Text
host_path host action =
    codes "/api/agent/hosts/" ++ (host.type ++ (codes "/" ++ (format_uint host.id ++ action)))

abbrev encoding_header : Text → List (Text × Text)
encoding_header encoding =
    if is_empty encoding then [] else (codes "Content-Encoding", encoding) ∷ []

module _ (wire : Wire) where
  unfoldable pub read_response : HttpResponse → Result ClientError Text
  read_response r =
      if ltb max_response_bytes (length r.body)
      then err response_too_large
      else if is_success r.status_code
      then ok r.body
      else err (http (http_error wire.status_text r (wire.decode_error r.body)))

  unfoldable pub signed_request : Text → Text → Text → ℕ → Text → ℕ → Text → Request
  signed_request path content_type content_encoding device_id private_key sequence body = record {
    method = codes "POST";
    path = path;
    headers =
        ((codes "Content-Type", content_type) ∷ encoding_header content_encoding)
        ++ (codes "X-Homelab-Agent-Id", format_uint device_id)
          ∷ (codes "X-Homelab-Agent-Timestamp", wire.timestamp)
          ∷ (codes "X-Homelab-Agent-Sequence", format_uint sequence)
          ∷ (codes "X-Homelab-Agent-Content-Sha256", wire.sha256_hex body)
          ∷ (
            codes "X-Homelab-Agent-Signature",
            wire.base64 (
                wire.sign private_key (
                  canonical_request (codes "POST") path wire.timestamp sequence
                    (wire.sha256_hex body))),
          )
          ∷ [];
    body = body;
  }

  unfoldable pub send_signed : Text → Text → Text → ℕ → Text → ℕ → Text → N Text
  unfolding send read_response
  send_signed path content_type content_encoding device_id private_key sequence body = do
    check (
        if device_id == 0 || sequence == 0 || not (length private_key == 64) || is_empty body
        then some signed_input_invalid
        else none)
    response ←
        send (signed_request path content_type content_encoding device_id private_key sequence body)
    lift (read_response response)

  -- A heartbeat's answer must be ok, for the same sequence, with a valid policy if it has one.
  abbrev pub checked_policy : Option MonitoringConfig → Option ClientError
  checked_policy none = none
  checked_policy (some config) = wrap monitoring_invalid (validate_monitoring_config config)

  unfoldable pub check_heartbeat : ℕ → HeartbeatResponse → Option ClientError
  check_heartbeat sequence r =
      if not r.is_ok || not (r.sequence == sequence)
      then some heartbeat_invalid
      else checked_policy r.monitoring_config

  unfoldable pub send_heartbeat : HostRef → ℕ → Text → ℕ → Text → N HeartbeatResponse
  unfolding check_heartbeat
  send_heartbeat host device_id private_key sequence compressed_body = do
    check (wrap host_invalid (validate_host_ref host))
    body ←
        send_signed (host_path host (codes "/heartbeats")) (codes "application/json") (codes "gzip")
          device_id private_key sequence compressed_body
    result ← lift (decoded (wire.decode_heartbeat body))
    check (check_heartbeat sequence result)
    pure result

  unfoldable pub send_hardware_snapshot : HostRef → ℕ → Text → ℕ → Text → N (Unit {0})
  send_hardware_snapshot host device_id private_key sequence body = do
    check (wrap host_invalid (validate_host_ref host))
    answer ←
        send_signed (host_path host (codes "/hardware-snapshots")) (codes "application/json") []
          device_id private_key sequence body
    pure tt

  abbrev etag_header : Text → List (Text × Text)
  etag_header etag = if is_empty etag then [] else (codes "If-None-Match", etag) ∷ []

  unfoldable pub contract_request : Text → Request
  contract_request etag = record {
    method = codes "GET";
    path = codes "/api/agent/contracts/current";
    headers = etag_header etag ++ (codes "X-Homelab-Agent-Schema-Digest", wire.bundle_digest) ∷ [];
    body = [];
  }

  -- A contract from the server is valid, and of a bundle that the agent understands.
  unfoldable pub check_contract : Contract → Option ClientError
  check_contract c = elim (validate_contract c) [
    | some e ↦ some (contract_invalid e)
    | none ↦ if wire.is_compatible c.schema_bundle_digest then none else some bundle_incompatible
  ]

  -- The contract and its tag; `none` is 304 Not Modified.
  unfoldable pub fetch_contract : Text → N (Option (Contract × Text))
  unfolding check_contract
  fetch_contract etag = do
    response ← send (contract_request etag)
    if response.status_code == 304 then pure none else do
      body ← lift (read_response response)
      contract ← lift (decoded (wire.decode_contract body))
      check (check_contract contract)
      pure (some (contract, response.etag))

  unfoldable pub check_activation : ActivationResponse → Option ClientError
  check_activation r =
      if r.device_id == 0 || ltb max_safe r.device_id || not (equals r.protocol_major current_major)
      then some activation_invalid
      else none

  unfoldable pub activation_request : HostRef → Text → Activation → Request
  activation_request host token activation = record {
    method = codes "POST";
    path = host_path host (codes "/activate");
    headers =
        (codes "Authorization", codes "Bearer " ++ token)
        ∷ (codes "Content-Type", codes "application/json")
        ∷ [];
    body = wire.encode_activation activation;
  }

  unfoldable pub activate : HostRef → Text → Activation → N ActivationResponse
  unfolding check_activation
  activate host token activation = do
    check (wrap host_invalid (validate_host_ref host))
    response ← send (activation_request host token activation)
    body ← lift (read_response response)
    result ← lift (decoded (wire.decode_activation body))
    check (check_activation result)
    pure result
