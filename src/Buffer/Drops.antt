-- ===== src/Buffer/Drops.antt =====
-- The count of dropped samples, as the metadata file holds it, across acknowledgements.
use homelab_inventory_agent.Prelude.{
  ℕ, ◌+◌, ◌-◌, ◌%◌, ◌<◌, List, [], ◌∷◌, ◌++◌, Text, Option, none, some, Result, ok, err, ◌≡◌, ◌≢◌,
  refl, arith, Bool-cases, inl, inr, ◌==◌, ltb, u64_mod,
}
use homelab_inventory_agent.Exec.{continue, ◌>>=◌, map_error}
use homelab_inventory_agent.Os.{
  Node, file, directory, Dir, Outcome, OsError, find, read_file, call, call_with, same, file_body,
}
use homelab_inventory_agent.Os.Atomic.{Replaced, atomic_write-Replaced}
use homelab_inventory_agent.Buffer.{
  Queue, QueueError, io, Json, metadata_name, temp_prefix, acknowledge_dropped, less_acknowledged,
  read_metadata, write_metadata, count_dropped, on_metadata,
}

-- What encoding/json promises of the count: it is read back, also behind a newline.
abbrev pub ReadsBack : Json ℕ → Type 0
ReadsBack json = (n : ℕ) → n < u64_mod → json.unmarshal (json.marshal n ++ b'\n' ∷ []) ≡ some n

-- The count in the directory; a missing file counts 0, an unreadable one nothing.
abbrev pub held : Json ℕ → Option Node → Option ℕ
held json none = some 0
held json (some (file b)) = json.unmarshal b
held json (some directory) = none

abbrev pub counted : Json ℕ → Queue → Option ℕ
counted json q = held json (find metadata_name q.dir.nodes)

-- Nil and the new count, or an error and the old one.
abbrev pub Counts : {A : Type 0} → Json ℕ → ℕ → ℕ → Result QueueError A × Queue → Type 0
Counts json old new (ok a, q) = counted json q ≡ some new
Counts json old new (err e, q) = counted json q ≡ some old

pub less_acknowledged-sub : (count n : ℕ) → less_acknowledged count n ≡ n - count
unfolding less_acknowledged
less_acknowledged-sub count n = ground arith

no_temp : (t : Text) → temp_prefix ++ t ≢ metadata_name
no_temp t = λ e. ground (arith, e)

wrapped-Counts :
    (json : Json ℕ) (old new : ℕ) (q : Queue) (x : Result OsError (Unit {0}) × Dir)
    → json.unmarshal (json.marshal new ++ b'\n' ∷ []) ≡ some new
    → counted json q ≡ some old
    → Replaced metadata_name (json.marshal new ++ b'\n' ∷ []) q.dir x
    → Counts json old new (map_error QueueError.os x.0, record q { dir = x.1 })
wrapped-Counts json old new q (ok u, d) back h r = rw r back
wrapped-Counts json old new q (err e, d) back h r = rw r h

write_metadata-Counts :
    (json : Json ℕ) (old new : ℕ) (q : Queue)
    → ReadsBack json
    → new < u64_mod
    → counted json q ≡ some old
    → Counts json old new (write_metadata json new q)
unfolding write_metadata io
write_metadata-Counts json old new q back fits h =
    wrapped-Counts json old new q _ (back new fits) h (
      atomic_write-Replaced temp_prefix metadata_name (json.marshal new ++ b'\n' ∷ []) q.dir
        no_temp)

-- Reading the count changes no file, and gives the count unless a call fails.
abbrev Reads : Json ℕ → ℕ → Result QueueError ℕ × Queue → Type 0
Reads json old (ok n, q) = (n ≡ old) × (counted json q ≡ some old)
Reads json old (err e, q) = counted json q ≡ some old

held-Reads :
    (json : Json ℕ) (old : ℕ) (o : Option Node) (q : Queue)
    → o ≡ find metadata_name q.dir.nodes
    → held json o ≡ some old
    → Reads json old (on_metadata json (map_error QueueError.os (file_body o)), q)
held-Reads json old none q e h = (ground arith, rw (← e) h)
held-Reads json old (some (file b)) q e h = rw h (refl, rw (← e) h)
held-Reads json old (some directory) q e h = ground arith

read_with :
    (json : Json ℕ) (old : ℕ) (q : Queue) (os : List Outcome) (d : Dir)
    → counted json (record q { dir = d }) ≡ some old
    → let x = call_with (λ t d. (file_body (find metadata_name d.nodes), d)) same os d in
      Reads json old (on_metadata json (map_error QueueError.os x.0), record q { dir = x.1 })
read_with json old q [] d h =
    held-Reads json old (find metadata_name d.nodes) (record q { dir = d }) refl h
read_with json old q (o ∷ rest) d h = elim (Bool-cases o.failed) [
  | inl f ↦ rw f h
  | inr f ↦ rw f (
      held-Reads json old (find metadata_name d.nodes)
        (record q { dir = record d { outcomes = rest } }) refl h)
]

read_metadata-Reads :
    (json : Json ℕ) (old : ℕ) (q : Queue)
    → counted json q ≡ some old
    → Reads json old (read_metadata json q)
unfolding read_metadata io read_file call
read_metadata-Reads json old q h = read_with json old q q.dir.outcomes q.dir h

-- A new count computed from the old one, and written.
updated-Counts :
    (json : Json ℕ) (old : ℕ) (f : ℕ → ℕ) (x : Result QueueError ℕ × Queue)
    → ReadsBack json
    → f old < u64_mod
    → Reads json old x
    → Counts json old (f old) (continue x.0 (λ n. write_metadata json (f n)) x.1)
updated-Counts json old f (ok n, q) back fits (same_count, h) =
    rw same_count (write_metadata-Counts json old (f old) q back fits h)
updated-Counts json old f (err e, q) back fits h = h

-- Acknowledging `count` samples takes them off the count, down to 0 at most, or returns an error and
-- leaves the count as it was, whatever calls fail.
pub acknowledge_dropped-Counts :
    (json : Json ℕ) (count old : ℕ) (q : Queue)
    → ReadsBack json
    → old < u64_mod
    → counted json q ≡ some old
    → Counts json old (old - count) (acknowledge_dropped json count q)
unfolding acknowledge_dropped ◌>>=◌
acknowledge_dropped-Counts json count old q back fits h = elim (Bool-cases (count == 0)) [
  | inl zero_count ↦
      let none_acknowledged : old - count ≡ old = ground arith in
      rw (zero_count, none_acknowledged) h
  | inr some_count ↦
      rw (some_count, ← less_acknowledged-sub count old)
        (updated-Counts json old (less_acknowledged count) (read_metadata json q) back
          (omega (arith, less_acknowledged-sub count old)) (read_metadata-Reads json old q h))
]

-- Counting dropped samples adds them to the count in uint64, or returns an error and leaves the count
-- as it was, whatever calls fail.
pub count_dropped-Counts :
    (json : Json ℕ) (dropped old : ℕ) (q : Queue)
    → ReadsBack json
    → old < u64_mod
    → counted json q ≡ some old
    → Counts json old ((old + dropped) % u64_mod) (count_dropped json dropped q)
unfolding count_dropped ◌>>=◌
count_dropped-Counts json dropped old q back fits h = elim (Bool-cases (ltb 0 dropped)) [
  | inl more ↦ rw more (
      updated-Counts json old (λ n. (n + dropped) % u64_mod) (read_metadata json q) back
        (omega arith) (read_metadata-Reads json old q h))
  | inr nothing ↦
      let unchanged : (old + dropped) % u64_mod ≡ old = ground arith in rw (nothing, unchanged) h
]
