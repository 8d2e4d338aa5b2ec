-- ===== src/Buffer/Settings.antt =====
-- internal/buffer/queue.go: SetLimits and Open, and the limits that the queue has behind them.
use homelab_inventory_agent.Prelude.{ℕ, suc, List, [], ◌∷◌, Text, true, ◌≡◌, refl, ◌∙◌}
use homelab_inventory_agent.Exec.{raise, zoom, ◌>>=◌}
use homelab_inventory_agent.Exec.Moves.{
  Progress, Moves, Moves-bind, Moves-pure, Moves-raise, moves_rules,
}
use homelab_inventory_agent.Os.{Node, Io, read_file}
use homelab_inventory_agent.Buffer.{
  Q, Queue, unsupported_file, Entry, Limits, limits_ok, Json, io, Kind, skipped, unsupported,
  sample, kind_of, cons_entry, read_entries, entries_locked, drop_oldest, read_metadata,
  write_metadata, count_dropped, enforce_limits, set_limits, metadata_name,
}

abbrev settings : Progress Queue
settings = record {
  Goes = λ q r. r.limits ≡ q.limits;
  stays = λ q. refl;
  joins = λ q r s e f. f ∙ e;
}

Moves-io : {A : Type 0} (m : Io A) → Moves settings (io m)
unfolding io zoom
Moves-io m = record { at = λ q. refl }

kind-Moves :
    (k : Kind) (name : Text) (rest : Q (List Entry))
    → Moves settings rest
    → Moves settings (elim k [
      | skipped ↦ rest
      | unsupported ↦ raise unsupported_file
      | sample sequence ↦ do body ← io (read_file name); cons_entry sequence body rest
    ])
kind-Moves skipped name rest h = h
kind-Moves unsupported name rest h = Moves-raise settings unsupported_file
kind-Moves (sample n) name rest h = Moves-bind settings _ _ (Moves-io (read_file name)) (λ body.
    Moves-bind settings rest _ h
      (λ es. Moves-pure settings (record { sequence = n; body = body } ∷ es)))

Moves-read_entries : (l : List (Text × Node)) → Moves settings (read_entries l)
unfolding read_entries
Moves-read_entries [] = Moves-pure settings []
Moves-read_entries ((name, node) ∷ more) =
    kind-Moves (kind_of name node) name (read_entries more) (Moves-read_entries more)

Moves-entries : Moves settings entries_locked
unfolding entries_locked
Moves-entries = search (moves_rules, Moves-io, Moves-read_entries)

Moves-drop_oldest :
    (l : Limits) (es : List Entry) (total dropped : ℕ)
    → Moves settings (drop_oldest l es total dropped)
unfolding drop_oldest
Moves-drop_oldest l [] total dropped = search moves_rules
Moves-drop_oldest l (e ∷ es) total dropped =
    search (moves_rules, Moves-io, Moves-drop_oldest l es _ (suc dropped))

module _ (json : Json ℕ) where
  Moves-read_metadata : Moves settings (read_metadata json)
  unfolding read_metadata
  Moves-read_metadata = record { at = λ q. (Moves-io (read_file metadata_name)).at q }

  Moves-write_metadata : (n : ℕ) → Moves settings (write_metadata json n)
  unfolding write_metadata
  Moves-write_metadata n = Moves-io _

  Moves-count_dropped : (n : ℕ) → Moves settings (count_dropped json n)
  unfolding count_dropped
  Moves-count_dropped n = search (moves_rules, Moves-read_metadata, Moves-write_metadata)

  Moves-enforce_limits : (es : List Entry) → Moves settings (enforce_limits json es)
  unfolding enforce_limits
  Moves-enforce_limits es = search (moves_rules, Moves-drop_oldest, Moves-count_dropped)

  -- Positive limits are set, even when the removal of what passes them fails.
  pub set_limits-sets :
      (l : Limits) (q : Queue) → limits_ok l ≡ true → (set_limits json l q).1.limits ≡ l
  unfolding set_limits ◌>>=◌
  set_limits-sets l q h =
      rw h
        ((Moves-bind settings _ _ Moves-entries Moves-enforce_limits).at (record q { limits = l }))
