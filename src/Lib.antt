-- ===== src/Lib.antt =====
-- The homelab inventory agent: a daemon that collects telemetry of a host and sends signed heartbeats
-- to a server. This library models the parts that decide what is stored, sent and accepted.
--
-- The agent (internal/runtime) asks the server for a contract, collects a heartbeat, reserves a
-- sequence number from the identity (internal/identity), turns the slow part of the heartbeat into
-- state families against the digests of the last report, validates it (protocol/v1), puts it in the
-- offline queue (internal/buffer) and transmits the queue with signed requests (internal/transport).
-- Identity, queue and runtime keep their state in files that are replaced atomically.
--
-- Files and sources:
--   Prelude      lists, texts (bytes), results, Go's int and uint64, float64 as its bits
--   Exec         methods that change an object and may fail; the object stays changed on failure
--   Os           package os on a directory: each call takes an outcome from a list, so that every
--                schedule of failures is a value; Os/Atomic is atomicWrite of internal/buffer/queue.go,
--                which internal/identity/identity.go and the runtime's files write out again
--   Decimal      strconv.ParseUint and the decimal form of a uint64, of at most 20 digits
--   Protocol     protocol/v1/models.go and bundle.go: the structs and validators
--   Buffer       internal/buffer/queue.go: Open, Add, SetLimits, Entries, Remove, Dropped,
--                ClearDropped, AcknowledgeDropped
--   Identity     internal/identity/identity.go: LoadOrCreate, Activate, ReserveSequence
--   Runtime      internal/runtime: deltaFamily of telemetry_delta.go (Delta), the state files of
--                monitoring_config.go, contract_cache.go, telemetry_delta.go and agent.go (Stores), and
--                Activate, Contract, Flush, SubmitHardwareSnapshot of agent.go (Agent)
--   Transport    internal/transport/client.go: the signed text, the requests, the reading of answers
--   Update       internal/agentupdate: version.go (Version), release.go (Release), platform.go (Platform)
--                and update.go (Run) on the state in Machine: the files, the answers of the endpoint and
--                the outcomes of the commands
--   Services     internal/collectors/services: parsing, classification and Collect of systemd.go (Systemd),
--                openrc.go (Openrc) and rcd.go (Rcd); what the commands and the files answer are values
--   Linux        internal/collectors/linux: proc.go (Proc, Memory) and the text of mounts.go (Mounts)
--   Freebsd      internal/collectors/freebsd/parse.go
--   Config       internal/config/config.go: Load and Validate
--   Assoc        Go maps with text keys
--   Distinct     lists of distinct texts, and where an element stands in a list
--   Examples     the theorems at concrete inputs
--
-- A Go function `someName` is `some_name` here. A `time.Time` is its nanoseconds, the zero time is 0.
-- JSON, gzip, SHA-256, Ed25519, base64 and the clock are parameters; where a theorem relies on one, it
-- names the property (a codec that reads back what it wrote, digests that do not collide).
-- The only fuel is the length of a text for white space and fields, which each step shortens,
-- and the 20 digits of a uint64.
--
-- Not modelled: mutexes (operations are sequential), file modes and owners, TLS, contexts except for
-- the cancelled fetch of a contract. buildCompactHeartbeat, Collect and Run of the runtime, the
-- other collectors, the inventory scan and the programs are not modelled: most of them read the
-- operating system or wire the parts.
mod Prelude
pub mod Protocol
pub mod Exec
pub mod Os
pub mod Decimal
pub mod Buffer
pub mod Identity
pub mod Update
pub mod Assoc
pub mod Runtime
pub mod Transport
pub mod Config
mod Distinct
pub mod Services
pub mod Linux
pub mod Freebsd
mod Examples
