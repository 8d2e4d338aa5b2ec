-- ===== src/Buffer/Names.antt =====
-- internal/buffer/queue.go: entryPath (the name under the directory) and parseSequence.
use homelab_inventory_agent.Prelude.{
  ℕ, ◌++◌, ◌<◌, Text, codes, strip_suffix, strip_suffix-append, ltb, u64_mod, Option, none, some,
  ◌≡◌, arith, lt→ltb, if◌then◌else◌,
}
use homelab_inventory_agent.Decimal.{parse_uint, digits}
use homelab_inventory_agent.Decimal.RoundTrip.{parse_uint-digits}

abbrev pub entry_suffix : Text
entry_suffix = codes ".heartbeat.gz"

-- %020d.heartbeat.gz
unfoldable pub entry_path : ℕ → Text
entry_path sequence = digits 20 sequence ++ entry_suffix

abbrev positive : Option ℕ → Option ℕ
positive none = none
positive (some n) = if ltb 0 n then some n else none

abbrev number_of : Option Text → Option ℕ
number_of none = none
number_of (some number) = positive (parse_uint number)

unfoldable pub parse_sequence : Text → Option ℕ
parse_sequence name = number_of (strip_suffix entry_suffix name)

-- The file name of a sequence number is read as that number, for every uint64 but 0.
pub parse_sequence-entry_path :
    (sequence : ℕ)
    → 0 < sequence
    → sequence < u64_mod
    → parse_sequence (entry_path sequence) ≡ some sequence
unfolding parse_sequence entry_path
parse_sequence-entry_path sequence pos fits =
    rw
      (
        strip_suffix-append (digits 20 sequence) entry_suffix,
        parse_uint-digits 20 sequence (omega arith) (omega arith) fits,
      )
      (rw (lt→ltb _ _ pos))
