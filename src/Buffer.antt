-- ===== src/Buffer.antt =====
-- internal/buffer/queue.go: the offline queue, a directory with a file for each heartbeat and one for
-- the count of dropped samples. JSON is a parameter, as a codec of that count.
pub mod Names
pub mod Limit
pub mod Enforced
pub mod Writes
pub mod Drops
pub mod Settings
pub use Names.*
unfoldable pub use Names.{entry_path, parse_sequence}
use homelab_inventory_agent.Prelude.{
  ℕ, suc, ◌+◌, ◌-◌, ◌%◌, ltb, leb, ◌==◌, ◌&&◌, ◌||◌, not, u64_mod, List, [], ◌∷◌, ◌++◌, Text, codes,
  text_eq, strip_prefix, length, is_empty, Bool, true, false, Option, none, some, Result, ok, err,
  ℤ, below, if◌then◌else◌,
}
use homelab_inventory_agent.Exec.{
  Exec, pure, raise, lift, get, put, check, map_error, zoom, ◌>>=◌, ◌>>◌,
}
use homelab_inventory_agent.Os.{
  Node, file, directory, Dir, OsError, not_exist, op_failed, Io, read_file, read_dir, remove, stat,
  plain,
}
use homelab_inventory_agent.Os.Atomic.{atomic_write}
use Names.{entry_path, parse_sequence}

pub record Limits : Type 0 where
  pub samples : ℤ
  pub bytes : ℤ

pub record Entry : Type 0 where
  pub sequence : ℕ
  pub body : Text

pub record Queue : Type 0 where
  pub dir : Dir
  pub limits : Limits

-- `index_panic` is `entries[0]` of an empty slice.
pub data QueueError : Type 0 where
  limits_not_positive entry_invalid entry_too_large sequence_exists : QueueError
  unsupported_file metadata_invalid index_panic : QueueError
  os : OsError → QueueError

-- encoding/json of `metadata`: the number behind "dropped".
pub record Json (A : Type 0) : Type 0 where
  pub marshal : A → Text
  pub unmarshal : Text → Option A

abbrev pub Q : Type 0 → Type 0
Q = Exec Queue QueueError

-- A call on the queue's directory.
unfoldable pub io : {A : Type 0} → Io A → Q A
unfolding zoom
io = zoom (λ q. q.dir) (λ d q. record q { dir = d }) os

abbrev pub metadata_name : Text
metadata_name = codes "metadata.json"

abbrev pub temp_prefix : Text
temp_prefix = codes ".queue-"

abbrev pub limits_ok : Limits → Bool
limits_ok l = not (below l.samples 1 || below l.bytes 1)

-- How one name of the directory is read.
pub data Kind : Type 0 where
  skipped unsupported : Kind
  sample : ℕ → Kind

abbrev is_reserved : Text → Bool
is_reserved name =
    text_eq name metadata_name
    || (elim (strip_prefix temp_prefix name) [ none ↦ false | some t ↦ true ])

unfoldable pub kind_of : Text → Node → Kind
kind_of name directory = skipped
kind_of name (file b) = elim (parse_sequence name) [
  | some sequence ↦ sample sequence
  | none ↦ if is_reserved name then skipped else unsupported
]

abbrev cons_entry : ℕ → Text → Q (List Entry) → Q (List Entry)
cons_entry sequence body rest = do
  entries ← rest
  pure (record { sequence = sequence; body = body } ∷ entries)

-- The loop of entriesLocked over the directory's listing.
read_entries : List (Text × Node) → Q (List Entry)
read_entries [] = pure []
read_entries ((name, node) ∷ more) =
    let rest = read_entries more in
    elim (kind_of name node) [
      | skipped ↦ rest
      | unsupported ↦ raise unsupported_file
      | sample sequence ↦ do body ← io (read_file name); cons_entry sequence body rest
    ]

-- sort.Slice by sequence
insert_entry : Entry → List Entry → List Entry
insert_entry e [] = e ∷ []
insert_entry e (f ∷ es) =
    let rest = insert_entry e es in if ltb f.sequence e.sequence then f ∷ rest else e ∷ f ∷ es

unfoldable pub sort_entries : List Entry → List Entry
unfolding insert_entry
sort_entries [] = []
sort_entries (e ∷ es) = insert_entry e (sort_entries es)

unfoldable pub entries_locked : Q (List Entry)
unfolding read_entries sort_entries kind_of
entries_locked = do
  listing ← io read_dir
  entries ← read_entries listing
  pure (sort_entries entries)

unfoldable pub size_of : List Entry → ℕ
size_of [] = 0
size_of (e ∷ es) = length e.body + size_of es

abbrev exceeds : ℕ → ℤ → Bool
exceeds n (ℤ.pos k) = ltb k n
exceeds n (ℤ.negsuc k) = true

-- The condition of the loop of enforceLimitsLocked.
unfoldable pub over : Limits → ℕ → ℕ → Bool
over l count total = exceeds count l.samples || exceeds total l.bytes

-- The oldest entries are removed while a limit is passed; the result is how many.
unfoldable pub drop_oldest : Limits → List Entry → ℕ → ℕ → Q ℕ
drop_oldest l [] total dropped = if over l 0 total then raise index_panic else pure dropped
drop_oldest l (oldest ∷ more) total dropped =
    let rest = drop_oldest l more (total - length oldest.body) (suc dropped) in
    if over l (suc (length more)) total
    then (do io (remove (entry_path oldest.sequence)); rest)
    else pure dropped

abbrev pub must_be_new : Result QueueError Node → Q (Unit {0})
must_be_new (ok n) = raise sequence_exists
must_be_new (err (os not_exist)) = pure tt
must_be_new (err e) = raise e

-- os.Stat, whose error decides
unfoldable pub check_new : Text → Q (Unit {0})
check_new name q = let (r, q') = io (stat name) q in must_be_new r q'

-- What is left of the count when `count` more are acknowledged.
unfoldable pub less_acknowledged : ℕ → ℕ → ℕ
less_acknowledged count dropped = if leb dropped count then 0 else dropped - count

module _ (json : Json ℕ) where
  abbrev decode_metadata : Option ℕ → Result QueueError ℕ
  decode_metadata none = err metadata_invalid
  decode_metadata (some n) = ok n

  abbrev on_metadata : Result QueueError Text → Result QueueError ℕ
  on_metadata (ok body) = decode_metadata (json.unmarshal body)
  on_metadata (err (os not_exist)) = ok 0
  on_metadata (err e) = err e

  unfoldable pub read_metadata : Q ℕ
  read_metadata q = let (r, q') = io (read_file metadata_name) q in (on_metadata r, q')

  unfoldable pub write_metadata : ℕ → Q (Unit {0})
  write_metadata dropped =
      io (atomic_write temp_prefix metadata_name (json.marshal dropped ++ b'\n' ∷ []))

  -- meta.Dropped += dropped, in uint64
  unfoldable pub count_dropped : ℕ → Q (Unit {0})
  count_dropped dropped =
      if ltb 0 dropped
      then (do n ← read_metadata; write_metadata ((n + dropped) % u64_mod))
      else pure tt

  unfoldable pub enforce_limits : List Entry → Q ℕ
  enforce_limits entries = do
    q ← get
    dropped ← drop_oldest q.limits entries (size_of entries) 0
    count_dropped dropped
    pure dropped

  unfoldable pub add : Entry → Q ℕ
  add e = do
    check (if e.sequence == 0 || is_empty e.body then some entry_invalid else none)
    q ← get
    check (if exceeds (length e.body) q.limits.bytes then some entry_too_large else none)
    check_new (entry_path e.sequence)
    io (atomic_write temp_prefix (entry_path e.sequence) e.body)
    entries ← entries_locked
    enforce_limits entries

  unfoldable pub set_limits : Limits → Q ℕ
  set_limits l = do
    check (if limits_ok l then none else some limits_not_positive)
    q ← get
    put (record q { limits = l })
    entries ← entries_locked
    enforce_limits entries

  unfoldable pub dropped_count : Q ℕ
  dropped_count = read_metadata

  unfoldable pub clear_dropped : Q (Unit {0})
  clear_dropped = write_metadata 0

  unfoldable pub acknowledge_dropped : ℕ → Q (Unit {0})
  unfolding less_acknowledged
  acknowledge_dropped count =
      if count == 0
      then pure tt
      else do dropped ← read_metadata; write_metadata (less_acknowledged count dropped)

abbrev ignore_missing : Result QueueError (Unit {0}) → Result QueueError (Unit {0})
ignore_missing (ok u) = ok u
ignore_missing (err (os not_exist)) = ok tt
ignore_missing (err e) = err e

unfoldable pub remove_entry : ℕ → Q (Unit {0})
remove_entry sequence q =
    let (r, q') = io (remove (entry_path sequence)) q in (ignore_missing r, q')

abbrev opened : Result QueueError (List Entry) × Queue → Result QueueError Queue
opened (ok entries, q) = ok q
opened (err e, q) = err e

-- Open: MkdirAll and Chmod, then one reading of the directory.
unfoldable pub open_queue : Dir → Limits → Result QueueError Queue
open_queue d l =
    if limits_ok l
    then opened ((do io plain; io plain; entries_locked) (record { dir = d; limits = l }))
    else err limits_not_positive
