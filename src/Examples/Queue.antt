-- ===== src/Examples/Queue.antt =====
-- The queue and the atomic write at concrete inputs.
use homelab_inventory_agent.Prelude.{
  ℕ, ◌+◌, ◌-◌, ◌%◌, u64_mod, List, [], ◌∷◌, Text, codes, text_eq, strip_suffix, strip_suffix-append,
  true, false, Option, none, some, ok, pos, ◌≡◌, refl, arith,
}
use homelab_inventory_agent.Exec.{◌>>=◌, zoom}
use homelab_inventory_agent.Os.{
  file, Dir, find, without, call, remove, read_file, create_temp, write, plain, rename, store,
}
use homelab_inventory_agent.Os.Atomic.{atomic_write, Replaced, atomic_write-Replaced}
use homelab_inventory_agent.Buffer.{
  Json, Queue, Limits, limits_ok, Entry, entry_path, parse_sequence, drop_oldest, size_of, over,
  remove_entry, add, enforce_limits, read_metadata, write_metadata, acknowledge_dropped,
  count_dropped, metadata_name,
}
use homelab_inventory_agent.Buffer
use homelab_inventory_agent.Buffer.Names.{parse_sequence-entry_path}
use homelab_inventory_agent.Decimal.{digits}
use homelab_inventory_agent.Buffer.Limit.{Trimmed, drop_oldest-Trimmed}
use homelab_inventory_agent.Buffer.Drops.{
  Counts, counted, acknowledge_dropped-Counts, count_dropped-Counts,
}
use homelab_inventory_agent.Buffer.Drops
use homelab_inventory_agent.Buffer.Enforced.{Enforced, enforce_limits-Enforced}
use homelab_inventory_agent.Buffer.Writes.{Refused, add-Refused}

-- The rename fails, and the old contents stay.
abbrev broken : Dir
broken = record {
  nodes = (codes "policy", file (codes "old")) ∷ [];
  outcomes =
      record { failed = false; text = codes "1" }
      ∷ record { failed = true; text = codes "ne" }
      ∷ [];
}

atomic_write-Replaced_example :
    Replaced
      (codes "policy")
      (codes "new")
      broken
      (atomic_write (codes ".tmp-") (codes "policy") (codes "new") broken)
atomic_write-Replaced_example =
    atomic_write-Replaced (codes ".tmp-") (codes "policy") (codes "new") broken
      (λ t e. ground (arith, e))

abbrev number : Option Text → Option ℕ
number (some (n ∷ [])) = some n
number _ = none

abbrev pub json : Json ℕ
json = record { marshal = λ n. n ∷ []; unmarshal = λ t. number (strip_suffix (b'\n' ∷ []) t) }

json-ReadsBack : Drops.ReadsBack json
json-ReadsBack n fits = rw (strip_suffix-append (n ∷ []) (b'\n' ∷ [])) refl

abbrev two_samples : Limits
two_samples = record { samples = pos 2; bytes = pos 100 }

abbrev entry : ℕ → Entry
entry n = record { sequence = n; body = n ∷ n ∷ [] }

abbrev three : List Entry
three = entry 1 ∷ entry 2 ∷ entry 3 ∷ []

abbrev pub queue : Queue
queue = record {
  dir = record {
    nodes =
        (metadata_name, file (5 ∷ b'\n' ∷ []))
        ∷ (entry_path 1, file (1 ∷ 1 ∷ []))
        ∷ (entry_path 2, file (2 ∷ 2 ∷ []))
        ∷ (entry_path 3, file (3 ∷ 3 ∷ []))
        ∷ [];
    outcomes = [];
  };
  limits = two_samples;
}

five_counted : counted json queue ≡ some 5
unfolding find text_eq strip_suffix
five_counted = refl

acknowledge_dropped-Counts_example : Counts json 5 (5 - 2) (acknowledge_dropped json 2 queue)
acknowledge_dropped-Counts_example =
    acknowledge_dropped-Counts json 2 5 queue json-ReadsBack (omega arith) five_counted

count_dropped-Counts_example : Counts json 5 ((5 + 2) % u64_mod) (count_dropped json 2 queue)
count_dropped-Counts_example =
    count_dropped-Counts json 2 5 queue json-ReadsBack (omega arith) five_counted

abbrev after_drop : Queue
after_drop = (drop_oldest two_samples three 6 0 queue).1

one_dropped : drop_oldest two_samples three (size_of three) 0 queue ≡ (ok 1, after_drop)
unfolding drop_oldest size_of over remove_entry Buffer.io zoom ◌>>=◌ remove call find without
    entry_path digits text_eq
one_dropped = refl

drop_oldest-Trimmed_example : Trimmed two_samples three 0 1 queue after_drop
drop_oldest-Trimmed_example = drop_oldest-Trimmed two_samples three 0 1 queue after_drop one_dropped

abbrev enforced : Queue
enforced = (enforce_limits json three queue).1

one_enforced : enforce_limits json three queue ≡ (ok 1, enforced)
unfolding enforce_limits drop_oldest count_dropped read_metadata write_metadata size_of over
    Buffer.io zoom ◌>>=◌ remove read_file atomic_write create_temp write plain rename store call
    find without entry_path digits text_eq strip_suffix
one_enforced = refl

enforce_limits-Enforced_example : Enforced json three 5 1 queue enforced
enforce_limits-Enforced_example =
    enforce_limits-Enforced json three 5 1 queue enforced json-ReadsBack
      ((omega arith, omega arith), ((omega arith, omega arith), ((omega arith, omega arith), tt)))
      (omega arith) five_counted one_enforced

found_2 : find (entry_path 2) queue.dir.nodes ≡ some (file (2 ∷ 2 ∷ []))
unfolding find entry_path digits text_eq
found_2 = refl

add-Refused_example : Refused queue.dir.nodes (add json (entry 2) queue)
add-Refused_example = add-Refused json (entry 2) (file (2 ∷ 2 ∷ [])) queue found_2

parse_sequence-entry_path_example : parse_sequence (entry_path 42) ≡ some 42
parse_sequence-entry_path_example = parse_sequence-entry_path 42 (omega arith) (omega arith)
