-- ===== src/Runtime/Delta.antt =====
-- internal/runtime/telemetry_delta.go: deltaFamily, which turns a family of records into what changed
-- since the last heartbeat. `value_hash` (SHA-256 of the JSON) is a parameter; it has no value for what
-- JSON cannot encode.
pub mod Loop
pub mod Server
pub mod Applied
use homelab_inventory_agent.Prelude.{
  ℕ, ◌+◌, ◌*◌, ◌%◌, leb, ◌==◌, ◌||◌, ◌&&◌, not, u64_mod, List, [], ◌∷◌, ◌++◌, Text, text_eq,
  is_empty, map, Bool, true, false, Option, none, some, if◌then◌else◌,
}
use homelab_inventory_agent.Assoc.{get, set}
use homelab_inventory_agent.Protocol.Types.{StateFamily}
use homelab_inventory_agent.Update.Version.{text_lt}

-- 6 hours, in nanoseconds.
abbrev pub full_reconciliation_interval : ℕ
full_reconciliation_interval = 6 * 3600 * 1_000_000_000

pub record FamilySyncState : Type 0 where
  pub revision : ℕ
  pub hashes : List (Text × Text)
  pub last_full_at : ℕ

abbrev pub empty_family : FamilySyncState
empty_family = record { revision = 0; hashes = []; last_full_at = 0 }

pub record KeyedValue (T : Type 0) : Type 0 where
  pub key : Text
  pub value : T

-- `m[k]` of a map to strings: "" where there is none.
abbrev pub or_empty : Option Text → Text
or_empty none = []
or_empty (some t) = t

-- sort.Strings
insert_text : Text → List Text → List Text
insert_text t [] = t ∷ []
insert_text t (u ∷ us) = let rest = insert_text t us in if text_lt u t then u ∷ rest else t ∷ u ∷ us

unfoldable pub sort_texts : List Text → List Text
unfolding insert_text
sort_texts [] = []
sort_texts (t ∷ ts) = insert_text t (sort_texts ts)

abbrev pub has : Option Text → Bool
has none = false
has (some t) = true

-- The keys of the old hashes that have no new one.
unfoldable pub missing_keys : List (Text × Text) → List (Text × Text) → List Text
missing_keys [] next = []
missing_keys ((k, d) ∷ old) next =
    let rest = missing_keys old next in if has (get next k) then rest else k ∷ rest

-- A full report is due: none was sent, or the last is six hours old.
unfoldable pub needs_full : FamilySyncState → ℕ → Bool
needs_full previous now =
    previous.revision == 0
    || previous.last_full_at == 0
    || leb (previous.last_full_at + full_reconciliation_interval) now

module _ {T : Type 0} where
  -- The values alone, for a full report.
  unfoldable pub values_of : List (KeyedValue T) → List T
  values_of [] = []
  values_of (entry ∷ entries) = entry.value ∷ values_of entries

  unfoldable pub build_delta :
      FamilySyncState
      → List (KeyedValue T)
      → ℕ
      → List (Text × Text)
      → List T
      → Option (StateFamily T) × FamilySyncState
  unfolding values_of
  build_delta previous values now next_hashes changed =
      let removed = sort_texts (missing_keys previous.hashes next_hashes) in
      let full = needs_full previous now in
      let revision = (previous.revision + 1) % u64_mod in
      if not full && is_empty changed && is_empty removed
      then (none, record previous { hashes = next_hashes })
      else if full
      then (
        some (record {
          revision = revision;
          full = true;
          changed = values_of values;
          removed = some removed;
        }),
        record { revision = revision; hashes = next_hashes; last_full_at = now },
      )
      else (
        some (record {
          revision = revision;
          full = false;
          changed = changed;
          removed = some removed;
        }),
        record { revision = revision; hashes = next_hashes; last_full_at = previous.last_full_at },
      )

  abbrev pub with_hashes :
      FamilySyncState
      → List (KeyedValue T)
      → ℕ
      → Option (List (Text × Text) × List T)
      → Option (Option (StateFamily T) × FamilySyncState)
  with_hashes previous values now none = none
  with_hashes previous values now (some (next, changed)) =
      some (build_delta previous values now next changed)

module _ {T : Type 0} (value_hash : T → Option Text) where
  -- The loop over the values: the new hashes and what changed.
  unfoldable pub hash_values :
      FamilySyncState
      → List (KeyedValue T)
      → List (Text × Text)
      → List T
      → Option (List (Text × Text) × List T)
  hash_values previous [] next changed = some (next, changed)
  hash_values previous (entry ∷ entries) next changed = elim (value_hash entry.value) [
    | none ↦ none
    | some digest ↦ hash_values previous entries (set entry.key digest next) (
        if text_eq (or_empty (get previous.hashes entry.key)) digest
        then changed
        else changed ++ entry.value ∷ [])
  ]

  -- `none` is the error of json.Marshal.
  unfoldable pub delta_family :
      FamilySyncState → List (KeyedValue T) → ℕ → Option (Option (StateFamily T) × FamilySyncState)
  unfolding hash_values build_delta
  delta_family previous values now =
      with_hashes previous values now (hash_values previous values [] [])
