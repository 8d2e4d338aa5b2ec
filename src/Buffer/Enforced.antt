-- ===== src/Buffer/Enforced.antt =====
-- internal/buffer/queue.go: enforceLimitsLocked, the loop and the count in the metadata file.
use homelab_inventory_agent.Prelude.{
  ℕ, ◌+◌, ◌%◌, ◌<◌, u64_mod, List, [], ◌∷◌, ◌++◌, Text, text_eq, text_eq→eq, All, false, none, some,
  ok, ◌≡◌, ◌≢◌, refl, sym, ap, ◌∙◌, arith, Bool-cases, inl, inr, Result, strip_suffix,
}
use homelab_inventory_agent.Exec.{>>=-eq-ok, pure, zoom, ◌>>=◌, ◌>>◌}
use homelab_inventory_agent.Exec.Moves.{Progress, Moves, Moves-bind, Moves-if, Moves-pure}
use homelab_inventory_agent.Os.{find, Io, read_file}
use homelab_inventory_agent.Os.Frame.{Leaves, Leaves-read_file}
use homelab_inventory_agent.Os.Atomic.{atomic_write-Leaves}
use homelab_inventory_agent.Buffer.{
  Queue, QueueError, Entry, Json, metadata_name, entry_path, parse_sequence, size_of, drop_oldest,
  count_dropped, enforce_limits, io, temp_prefix, read_metadata, write_metadata,
}
use homelab_inventory_agent.Buffer.Names.{parse_sequence-entry_path}
use homelab_inventory_agent.Buffer.Drops.{ReadsBack, held, counted, Counts, count_dropped-Counts}
use homelab_inventory_agent.Buffer.Limit.{names_one, Trimmed, drop_oldest-Trimmed}

-- A sequence number that Add takes.
abbrev pub Numbered : Entry → Type 0
Numbered e = (0 < e.sequence) × (e.sequence < u64_mod)

metadata_unnumbered : parse_sequence metadata_name ≡ none
unfolding parse_sequence strip_suffix text_eq
metadata_unnumbered = refl

entry_elsewhere : (e : Entry) → Numbered e → text_eq (entry_path e.sequence) metadata_name ≡ false
entry_elsewhere e (positive, fits) =
    elim (Bool-cases (text_eq (entry_path e.sequence) metadata_name)) [
      | inl same ↦
          let read : parse_sequence metadata_name ≡ some e.sequence =
            ap parse_sequence (sym (text_eq→eq _ _ same))
            ∙ parse_sequence-entry_path e.sequence positive fits in
          ground (arith, sym metadata_unnumbered ∙ read)
      | inr other ↦ other
    ]

entries_elsewhere :
    (old new : List Entry) → All Numbered (old ++ new) → names_one metadata_name old ≡ false
entries_elsewhere [] new h = refl
entries_elsewhere (e ∷ old) new (here, rest) =
    rw (entry_elsewhere e here, entries_elsewhere old new rest) refl

-- A name that counting the dropped samples does not touch.
abbrev pub IsApart : Text → Type 0
IsApart name = (metadata_name ≢ name) × ((t : Text) → temp_prefix ++ t ≢ name)

module _ (name : Text) where
  abbrev keeps : Progress Queue
  keeps = record {
    Goes = λ q r. find name r.dir.nodes ≡ find name q.dir.nodes;
    stays = λ q. refl;
    joins = λ q r s e f. f ∙ e;
  }

  Moves-io : {A : Type 0} (m : Io A) → Leaves name m → Moves keeps (io m)
  unfolding io zoom
  Moves-io m h = record { at = λ q. h.at q.dir }

  module _ (json : Json ℕ) where
    Moves-read_metadata : Moves keeps (read_metadata json)
    unfolding read_metadata
    Moves-read_metadata = record {
      at = λ q. (Moves-io (read_file metadata_name) (Leaves-read_file name metadata_name)).at q;
    }

    Moves-write_metadata : (n : ℕ) → IsApart name → Moves keeps (write_metadata json n)
    unfolding write_metadata
    Moves-write_metadata n (other, no_temp) =
        Moves-io _
          (atomic_write-Leaves temp_prefix name metadata_name _ (λ e. other (sym e)) no_temp)

    Moves-count_dropped : (n : ℕ) → IsApart name → Moves keeps (count_dropped json n)
    unfolding count_dropped
    Moves-count_dropped n apart =
        Moves-if keeps _ _ _
          (Moves-bind keeps _ _ Moves-read_metadata (λ old. Moves-write_metadata _ apart))
          (Moves-pure keeps _)

-- The loop's work, and what counting it has done behind it: the stored count has grown by the number of
-- removed entries, and no file is changed but the metadata and temporary ones.
pub record Enforced (json : Json ℕ) (es : List Entry) (old m : ℕ) (q q' : Queue) : Type 0 where
  pub between : Queue
  pub trimmed : Trimmed q.limits es 0 m q between
  pub count_moved : counted json q' ≡ some ((old + m) % u64_mod)
  pub rest_kept :
      (name : Text) → IsApart name → find name q'.dir.nodes ≡ find name between.dir.nodes

ok-Counts :
    {A : Type 0} (json : Json ℕ) (old new : ℕ) (x : Result QueueError A × Queue) (a : A) (q : Queue)
    → x ≡ (ok a, q)
    → Counts json old new x
    → counted json q ≡ some new
ok-Counts json old new x a q e h = rw e at h

counted-Trimmed :
    (json : Json ℕ) (es : List Entry) (m old : ℕ) (q q1 : Queue)
    → All Numbered es
    → Trimmed q.limits es 0 m q q1
    → counted json q ≡ some old
    → counted json q1 ≡ some old
counted-Trimmed json es m old q q1 numbered t h =
    let apart : names_one metadata_name t.old ≡ false =
      entries_elsewhere t.old t.new (rw t.split numbered) in
    let kept : find metadata_name q1.dir.nodes ≡ find metadata_name q.dir.nodes =
      rw apart at (t.gone metadata_name) in
    ap (held json) kept ∙ h

returned : (n m : ℕ) (q q' : Queue) → pure {E = QueueError} n q ≡ (ok m, q') → (n ≡ m) × (q ≡ q')
returned n m q q' h = ground arith

module _ (json : Json ℕ) (es : List Entry) (old m : ℕ) (q q' : Queue) (back : ReadsBack json)
    (numbered : All Numbered es) (fits : old < u64_mod) (h : counted json q ≡ some old) where
  parts-Enforced :
      (n : ℕ) (q1 q2 : Queue) (u : Unit {0})
      → drop_oldest q.limits es (size_of es) 0 q ≡ (ok n, q1)
      → count_dropped json n q1 ≡ (ok u, q2)
      → (n ≡ m) × (q2 ≡ q')
      → Enforced json es old m q q'
  parts-Enforced n q1 q2 u dropped written (same_number, same_queue) =
      let t : Trimmed q.limits es 0 n q q1 = drop_oldest-Trimmed q.limits es 0 n q q1 dropped in
      let moved : counted json q2 ≡ some ((old + n) % u64_mod) =
        ok-Counts json old _ _ u q2 written (
          count_dropped-Counts json n old q1 back fits
            (counted-Trimmed json es n old q q1 numbered t h)) in
      record {
        between = q1;
        trimmed = rw (← same_number) t;
        count_moved = rw (← same_number, ← same_queue) moved;
        rest_kept = λ name apart.
            let left : find name (count_dropped json n q1).1.dir.nodes ≡ find name q1.dir.nodes =
              (Moves-count_dropped name json n apart).at q1 in
            rw (← same_queue) (rw written at left);
      }

-- If the codec reads back what it wrote and the entries have sequence numbers that Add takes: where
-- enforceLimitsLocked ends without an error, the loop has removed the files of the oldest entries, down
-- to the longest end of them that is within the limits, and the stored count of dropped samples has
-- grown by their number, in uint64. No other file changes but the metadata and temporary ones.
pub enforce_limits-Enforced :
    (json : Json ℕ) (es : List Entry) (old m : ℕ) (q q' : Queue)
    → ReadsBack json
    → All Numbered es
    → old < u64_mod
    → counted json q ≡ some old
    → enforce_limits json es q ≡ (ok m, q')
    → Enforced json es old m q q'
unfolding enforce_limits ◌>>=◌
enforce_limits-Enforced json es old m q q' back numbered fits h e =
    let (n, q1, dropped, e2) =
      >>=-eq-ok (drop_oldest q.limits es (size_of es) 0) (λ n. count_dropped json n >> pure n) q
        e in
    let (u, q2, written, e3) = >>=-eq-ok (count_dropped json n) (λ u. pure n) q1 e2 in
    parts-Enforced json es old m q q' back numbered fits h n q1 q2 u dropped written
      (returned n m q2 q' e3)
