-- ===== src/Runtime/Agent/Contracts.antt =====
-- The contract that the agent works with, whether it is fetched or read from the cache.
use homelab_inventory_agent.Prelude.{
  Text, Bool, true, false, Option, none, some, Result, ok, err, ℤ, pos, negsuc, ◌≡◌, refl, arith,
  inl, inr, Bool-cases, Option-cases,
}
use homelab_inventory_agent.Exec.{pure, continue, map_error, zoom, ◌>>=◌}
use homelab_inventory_agent.Os.{Dir, OsError, not_exist, op_failed, read_file}
use homelab_inventory_agent.Buffer.{Limits, limits_ok, set_limits}
use homelab_inventory_agent.Buffer.Settings.{set_limits-sets}
use homelab_inventory_agent.Protocol.Types.{Contract}
use homelab_inventory_agent.Protocol.Contract.{validate_contract}
use homelab_inventory_agent.Protocol.Contract.Spec.{HasRanges, Between, validate_contract-none_iff}
use homelab_inventory_agent.Transport.{http, Net, ClientError, fetch_contract}
use homelab_inventory_agent.Transport.Replies.{fetch_contract-HasRanges}
use homelab_inventory_agent.Runtime.Stores.{
  StoreError, schema_incompatible, CachedContract, contract_name, or_zero, load, check_cached,
  decode_cached, load_contract_cache, write_contract_cache,
}
use homelab_inventory_agent.Runtime.Agent.{
  Agent, AgentError, client, Codecs, on_state, on_queue, on_net, apply_contract_limits, or_no_cache,
  cached_contract, limited, from_cache, on_fetched, etag_of, fetched, current_contract,
}

abbrev pub limits_of : Contract → Limits
limits_of c = record { samples = c.limits.offline_samples; bytes = c.limits.offline_bytes }

-- In range, and of a bundle that the agent understands.
abbrev pub Usable : Codecs → Contract → Type 0
Usable codecs c = HasRanges c × (codecs.wire.is_compatible c.schema_bundle_digest ≡ true)

-- A usable contract, whose limits the queue has; or an error.
abbrev pub Limited : Codecs → Result AgentError Contract × Agent → Type 0
Limited codecs (ok c, a) = Usable codecs c × (a.queue.limits ≡ limits_of c)
Limited codecs (err e, a) = Unit

ranges_positive :
    (s b : ℤ)
    → Between 1 1440 s
    → Between 1_048_576 52_428_800 b
    → limits_ok (record { samples = s; bytes = b }) ≡ true
ranges_positive (pos n) (pos m) h k = ground arith
ranges_positive (pos n) (negsuc m) h k = absurd k
ranges_positive (negsuc n) b h k = absurd h

applied-Limited :
    {A : Type 0} (codecs : Codecs) (c : Contract) (x : Result AgentError A × Agent)
    → Usable codecs c
    → x.1.queue.limits ≡ limits_of c
    → Limited codecs (
        continue
          (continue x.0 (λ n. pure {A = Unit {0}} tt) x.1).0
          (λ u. pure c)
          (continue x.0 (λ n. pure {A = Unit {0}} tt) x.1).1)
applied-Limited codecs c (ok n, a) h e = (h, e)
applied-Limited codecs c (err e, a) h f = tt

limited-Limited :
    (codecs : Codecs) (c : Contract) (a : Agent)
    → Usable codecs c
    → Limited codecs (limited codecs c a)
unfolding apply_contract_limits on_queue zoom ◌>>=◌
limited-Limited codecs c a h =
    applied-Limited codecs c (on_queue (set_limits codecs.counts (limits_of c)) a) h (
      set_limits-sets codecs.counts (limits_of c) a.queue
        (ranges_positive _ _ h.0.samples h.0.bytes))

-- What the cache and the server may bring.
abbrev CacheUsable : Codecs → Result StoreError (Option CachedContract) → Type 0
CacheUsable codecs (ok (some k)) = Usable codecs k.contract
CacheUsable codecs (ok none) = Unit
CacheUsable codecs (err e) = Unit

abbrev KnownUsable : Codecs → Option CachedContract → Type 0
KnownUsable codecs (some k) = Usable codecs k.contract
KnownUsable codecs none = Unit

abbrev AnswerUsable : Codecs → Result AgentError (Option (Contract × Text)) → Type 0
AnswerUsable codecs (ok (some (c, tag))) = Usable codecs c
AnswerUsable codecs (ok none) = Unit
AnswerUsable codecs (err e) = Unit

check_cached-CacheUsable :
    (codecs : Codecs) (k : CachedContract)
    → CacheUsable codecs (check_cached codecs.wire.is_compatible k (validate_contract k.contract))
check_cached-CacheUsable codecs k = elim (Option-cases (validate_contract k.contract)) [
  | inr (e, invalid) ↦ rw invalid tt
  | inl valid ↦
      let ranges : HasRanges k.contract = (validate_contract-none_iff k.contract).0 valid in
      rw valid (elim (Bool-cases (codecs.wire.is_compatible k.contract.schema_bundle_digest)) [
        | inl known ↦ rw known (ranges, known)
        | inr other ↦ rw other tt
      ])
]

decoded-CacheUsable :
    (codecs : Codecs) (o : Option CachedContract)
    → CacheUsable codecs (decode_cached codecs.wire.is_compatible o)
decoded-CacheUsable codecs none = tt
decoded-CacheUsable codecs (some k) = check_cached-CacheUsable codecs k

or_zero-CacheUsable :
    (codecs : Codecs) (r : Result OsError Text)
    → CacheUsable codecs (
        or_zero none
          (λ body. decode_cached codecs.wire.is_compatible (codecs.contracts.unmarshal body))
          r)
or_zero-CacheUsable codecs (ok body) = decoded-CacheUsable codecs (codecs.contracts.unmarshal body)
or_zero-CacheUsable codecs (err not_exist) = tt
or_zero-CacheUsable codecs (err op_failed) = tt

load-CacheUsable :
    (codecs : Codecs) (d : Dir)
    → CacheUsable codecs (load_contract_cache codecs.contracts codecs.wire.is_compatible d).0
unfolding load_contract_cache load
load-CacheUsable codecs d = or_zero-CacheUsable codecs (read_file contract_name d).0

answer-AnswerUsable :
    (codecs : Codecs) (etag : Text) (net : Net)
    (x : Result ClientError (Option (Contract × Text)) × Net)
    → fetch_contract codecs.wire etag net ≡ x
    → AnswerUsable codecs (map_error client x.0)
answer-AnswerUsable codecs etag net (ok (some (c, tag)), n) h =
    fetch_contract-HasRanges codecs.wire etag tag net n c h
answer-AnswerUsable codecs etag net (ok none, n) h = tt
answer-AnswerUsable codecs etag net (err e, n) h = tt

from_cache-Limited :
    (codecs : Codecs) (e : AgentError) (o : Option CachedContract) (a : Agent)
    → KnownUsable codecs o
    → Limited codecs (from_cache codecs e o a)
from_cache-Limited codecs e none a h = tt
from_cache-Limited codecs e (some k) a h = limited-Limited codecs k.contract a h

written-Limited :
    (codecs : Codecs) (c : Contract) (x : Result AgentError (Unit {0}) × Agent)
    → Usable codecs c
    → Limited codecs (continue x.0 (λ u. limited codecs c) x.1)
written-Limited codecs c (ok u, a) h = limited-Limited codecs c a h
written-Limited codecs c (err e, a) h = tt

unanswered-Limited :
    (codecs : Codecs) (cancelled : Bool) (e : ClientError) (o : Option CachedContract) (a : Agent)
    → KnownUsable codecs o
    → Limited codecs (on_fetched codecs cancelled o (err (client e)) a)
unanswered-Limited codecs true e o a h = tt
unanswered-Limited codecs false (http e) o a h = tt
unanswered-Limited codecs false e o a h = from_cache-Limited codecs (client e) o a h

on_fetched-Limited :
    (codecs : Codecs) (cancelled : Bool) (o : Option CachedContract)
    (r : Result AgentError (Option (Contract × Text))) (a : Agent)
    → KnownUsable codecs o
    → AnswerUsable codecs r
    → Limited codecs (on_fetched codecs cancelled o r a)
unfolding ◌>>=◌
on_fetched-Limited codecs cancelled o (ok none) a h k = from_cache-Limited codecs _ o a h
on_fetched-Limited codecs cancelled o (ok (some (c, tag))) a h k =
    written-Limited codecs c
      (on_state (write_contract_cache codecs.contracts (record { etag = tag; contract = c })) a) k
on_fetched-Limited codecs cancelled o (err (client e)) a h k =
    unanswered-Limited codecs cancelled e o a h
on_fetched-Limited codecs cancelled o (err e) a h k = tt

fetched-Limited :
    (codecs : Codecs) (cancelled : Bool) (o : Option CachedContract) (a : Agent)
    → KnownUsable codecs o
    → Limited codecs (fetched codecs cancelled o a)
unfolding fetched on_net zoom
fetched-Limited codecs cancelled o a h =
    on_fetched-Limited codecs cancelled o _ _ h
      (answer-AnswerUsable codecs (etag_of codecs o) a.net _ refl)

cached-Limited :
    (codecs : Codecs) (cancelled : Bool) (r : Result StoreError (Option CachedContract)) (a : Agent)
    → CacheUsable codecs r
    → Limited codecs (continue (or_no_cache codecs r) (fetched codecs cancelled) a)
cached-Limited codecs cancelled (ok none) a h = fetched-Limited codecs cancelled none a tt
cached-Limited codecs cancelled (ok (some k)) a h = fetched-Limited codecs cancelled (some k) a h
cached-Limited codecs cancelled (err schema_incompatible) a h =
    fetched-Limited codecs cancelled none a tt
cached-Limited codecs cancelled (err e) a h = tt

-- A contract that the agent gets, from the server or from its cache, has every value in range and is of
-- a bundle that the agent understands, and the queue has its limits on samples and bytes.
pub current_contract-Limited :
    (codecs : Codecs) (cancelled : Bool) (a : Agent)
    → Limited codecs (current_contract codecs cancelled a)
unfolding current_contract cached_contract ◌>>=◌
current_contract-Limited codecs cancelled a =
    cached-Limited codecs cancelled _ _ (load-CacheUsable codecs a.state)
