-- ===== src/Protocol/Contract/Spec.antt =====
-- A contract that is accepted, as a record of ranges.
use homelab_inventory_agent.Prelude.{
  ℕ, ◌≤◌, ◌||◌, true, false, length, ℤ, pos, negsuc, above, below, equals, none, first_failed-none,
  first_failed_ok, ◌≡◌, ◌≢◌, ◌↔◌, arith,
}
use homelab_inventory_agent.Protocol.Types.{Contract, current_major}
use homelab_inventory_agent.Protocol.Contract.{contract_checks, validate_contract}

-- `lo ≤ x ≤ hi`, so that the integer is not negative.
abbrev pub Between : ℕ → ℕ → ℤ → Type 0
Between lo hi (pos n) = (lo ≤ n) × (n ≤ hi)
Between lo hi (negsuc n) = ⊥

Between-sound : (lo hi : ℕ) (x : ℤ) → (below x lo || above x hi) ≡ false → Between lo hi x
Between-sound lo hi (pos n) h = ground arith
Between-sound lo hi (negsuc n) h = ground arith

Between-complete : (lo hi : ℕ) (x : ℤ) → Between lo hi x → (below x lo || above x hi) ≡ false
Between-complete lo hi (pos n) h = ground arith
Between-complete lo hi (negsuc n) h = absurd h

pub record HasRanges (c : Contract) : Type 0 where
  pub major : equals c.protocol_major current_major ≡ true
  pub revised : (c.revision ≢ 0) × (c.issued_at ≢ 0)
  pub digest : length c.schema_bundle_digest ≡ 64
  pub host_interval : Between 30 300 c.collection.host_interval_seconds
  pub service_interval : Between 300 3600 c.collection.service_interval_seconds
  pub storage_interval : Between 1800 86400 c.collection.storage_health_interval_seconds
  pub gpu_interval : Between 3 60 c.collection.gpu_sample_interval_seconds
  pub compressed : Between 1024 1048576 c.limits.compressed_bytes
  pub decompressed : Between 4096 4194304 c.limits.decompressed_bytes
  pub samples : Between 1 1440 c.limits.offline_samples
  pub bytes : Between 1048576 52428800 c.limits.offline_bytes
  pub private : c.privacy.raw_hardware_identifiers ≡ false

pub validate_contract-none_iff : (c : Contract) → (validate_contract c ≡ none) ↔ HasRanges c
unfolding validate_contract
validate_contract-none_iff c = (accept, refuse)
  where
    accept : validate_contract c ≡ none → HasRanges c
    accept h =
        let (m, h1) = first_failed-none (contract_checks c) h in
        let (r, h2) = h1 in
        let (d, h3) = h2 in
        let (a, h4) = h3 in
        let (b, h5) = h4 in
        let (s, h6) = h5 in
        let (g, h7) = h6 in
        let (k, h8) = h7 in
        let (l, h9) = h8 in
        let (n, h10) = h9 in
        let (o, h11) = h10 in
        record {
          major = ground arith;
          revised = ground arith;
          digest = ground arith;
          host_interval = Between-sound _ _ _ a;
          service_interval = Between-sound _ _ _ b;
          storage_interval = Between-sound _ _ _ s;
          gpu_interval = Between-sound _ _ _ g;
          compressed = Between-sound _ _ _ k;
          decompressed = Between-sound _ _ _ l;
          samples = Between-sound _ _ _ n;
          bytes = Between-sound _ _ _ o;
          private = h11.0;
        }

    refuse : HasRanges c → validate_contract c ≡ none
    refuse r = first_failed_ok (contract_checks c) (
      ground arith,
      (
        ground arith,
        (
          ground arith,
          (
            Between-complete _ _ _ r.host_interval,
            (
              Between-complete _ _ _ r.service_interval,
              (
                Between-complete _ _ _ r.storage_interval,
                (
                  Between-complete _ _ _ r.gpu_interval,
                  (
                    Between-complete _ _ _ r.compressed,
                    (
                      Between-complete _ _ _ r.decompressed,
                      (
                        Between-complete _ _ _ r.samples,
                        (Between-complete _ _ _ r.bytes, (r.private, tt)),
                      ),
                    ),
                  ),
                ),
              ),
            ),
          ),
        ),
      ),
    )
