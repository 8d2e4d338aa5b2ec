-- ===== src/Examples/State.antt =====
-- Identity, queue, atomic writes and state families at concrete inputs.
use homelab_inventory_agent.Prelude.{
  ℕ, ◌<◌, ◌==◌, u64_mod, List, [], ◌∷◌, ◌++◌, Text, codes, text_eq, strip_suffix,
  strip_suffix-append, Option, none, some, ok, ℤ, pos, negsuc, if◌then◌else◌, ◌≡◌, refl, arith,
}
use homelab_inventory_agent.Exec.{◌>>=◌, zoom}
use homelab_inventory_agent.Os.{
  Node, file, find, without, store, call, read_file, remove, create_temp, write, plain, rename,
}
use homelab_inventory_agent.Os.Atomic.{atomic_write, finally_remove, fill}
use homelab_inventory_agent.Identity.{
  Persisted, Identity, Codec, identity_name, file_of, persisted_of, persist_locked, replace_file,
  reserve_sequence, load_or_create,
}
use homelab_inventory_agent.Identity
use homelab_inventory_agent.Identity.Sequence.{OnDisk, IsFresh, Issues, reserve_sequence-Issues}
use homelab_inventory_agent.Identity.Sequence
use homelab_inventory_agent.Identity.Life.{Life, begin, issue, restart, Descending, Life-Descending}

-- A codec of identities: the numbers in turn, then the key.
abbrev sign_of : ℤ → ℕ
sign_of (pos n) = 0
sign_of (negsuc n) = 1

abbrev size_of : ℤ → ℕ
size_of (pos n) = n
size_of (negsuc n) = n

abbrev to_int : ℕ → ℕ → ℤ
to_int s n = if s == 0 then pos n else negsuc n

to_int_lem : (x : ℤ) → to_int (sign_of x) (size_of x) ≡ x
to_int_lem (pos n) = refl
to_int_lem (negsuc n) = refl

abbrev decode : Option Text → Option Persisted
decode (some (s ∷ n ∷ d ∷ q ∷ key)) =
    some (record { version = to_int s n; private_key = key; device_id = d; sequence = q })
decode _ = none

abbrev pub codec : Codec
codec = record {
  marshal = λ p. sign_of p.version ∷ size_of p.version ∷ p.device_id ∷ p.sequence ∷ p.private_key;
  unmarshal = λ t. decode (strip_suffix (b'\n' ∷ []) t);
  encode_key = λ k. k;
  decode_key = some;
}

codec-ReadsBack : Sequence.ReadsBack codec
codec-ReadsBack p fits =
    rw (strip_suffix-append (codec.marshal p) (b'\n' ∷ []), to_int_lem p.version) refl

abbrev key : Text
key = codes "0123456789abcdef0123456789abcdef0123456789abcdef0123456789abcdef"

abbrev on_file : Persisted
on_file = record { version = pos 1; private_key = key; device_id = 7; sequence = 3 }

abbrev first_nodes : List (Text × Node)
first_nodes = (identity_name, file (codec.marshal on_file ++ b'\n' ∷ [])) ∷ []

abbrev pub first_identity : Identity
first_identity = record {
  dir = record { nodes = first_nodes; outcomes = [] };
  private_key = key;
  device_id = 7;
  sequence = 3;
}

first-OnDisk : OnDisk codec [] first_nodes
unfolding find text_eq
first-OnDisk = record {
  body = codec.marshal on_file ++ b'\n' ∷ [];
  stored = on_file;
  there = refl;
  readable = codec-ReadsBack on_file (arith_lt 3);
  reached = tt;
  fits = arith_lt 3;
}
  where
    arith_lt : (n : ℕ) → 3 < u64_mod
    arith_lt n = omega arith

first-IsFresh : IsFresh codec [] first_identity
first-IsFresh = record { on_disk = first-OnDisk; in_memory = tt; bounded = omega arith }

abbrev after_one : Identity
after_one = (reserve_sequence codec first_identity).1

-- The process stops, and the file is loaded again.
abbrev reloaded : Identity
reloaded = record { dir = after_one.dir; private_key = key; device_id = 7; sequence = 4 }

abbrev after_two : Identity
after_two = (reserve_sequence codec reloaded).1

issued_4 : reserve_sequence codec first_identity ≡ (ok 4, after_one)
unfolding reserve_sequence persist_locked Identity.io zoom replace_file file_of persisted_of ◌>>=◌
    atomic_write finally_remove fill plain create_temp write rename remove call find without store
    text_eq
issued_4 = refl

loaded_again : load_or_create codec key after_one.dir ≡ (ok reloaded, after_one.dir)
unfolding reserve_sequence persist_locked Identity.io zoom replace_file file_of persisted_of
    load_or_create read_file ◌>>=◌ atomic_write finally_remove fill plain create_temp write rename
    remove call find without store text_eq strip_suffix
loaded_again = refl

issued_5 : reserve_sequence codec reloaded ≡ (ok 5, after_two)
unfolding reserve_sequence persist_locked Identity.io zoom replace_file file_of persisted_of ◌>>=◌
    atomic_write finally_remove fill plain create_temp write rename remove call find without store
    text_eq
issued_5 = refl

two_issued : Life codec (5 ∷ 4 ∷ []) after_two
two_issued =
    issue 5 after_two
      (restart key after_one.dir after_one.dir reloaded
        (issue 4 after_one (begin first_identity first-IsFresh) issued_4) refl loaded_again)
      issued_5

Life-Descending_example : Descending (5 ∷ 4 ∷ [])
Life-Descending_example = Life-Descending codec (5 ∷ 4 ∷ []) after_two codec-ReadsBack two_issued

reserve_sequence-Issues_example : Issues codec [] (reserve_sequence codec first_identity)
reserve_sequence-Issues_example =
    reserve_sequence-Issues codec [] first_identity codec-ReadsBack first-IsFresh
