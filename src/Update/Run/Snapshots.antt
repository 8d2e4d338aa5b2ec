-- ===== src/Update/Run/Snapshots.antt =====
-- The copies of the two files that are taken before anything is replaced.
use homelab_inventory_agent.Prelude.{
  List, [], ◌∷◌, Text, Result, ok, err, ◌≡◌, refl, ◌∙◌, inl, inr, Bool-cases,
}
use homelab_inventory_agent.Exec.{continue, map_error, zoom, pure, ◌>>=◌, ◌>>◌}
use homelab_inventory_agent.Exec.Moves.{Progress, Moves, moves_rules}
use homelab_inventory_agent.Exec.Ensures.{WhenOk}
use homelab_inventory_agent.Os.{
  Dir, Node, file, directory, Outcome, OsError, call, call_with, same, stat, read_file,
}
use homelab_inventory_agent.Os.Frame.{ReadOf, read_file-ReadOf}
use homelab_inventory_agent.Update.Machine.{Machine, UpdateError, os, on_files, wrapped}
use homelab_inventory_agent.Update.Platform.{SavedFile, snapshot_file, must_be_regular}
use homelab_inventory_agent.Update.Release.Served.{LeftOf, consumes}
use homelab_inventory_agent.Update.Run.{snapshot}
use homelab_inventory_agent.Update.Run.Rollback.{Holds}

-- The files stay, and of the answers of the endpoint some are used.
abbrev pub prepares : Progress Machine
prepares = record {
  Goes = λ m n. (n.files.nodes ≡ m.files.nodes) × LeftOf m.web.answers n.web.answers;
  stays = λ m. (refl, consumes.stays m.web);
  joins = λ m n o (e, l) (f, k). (f ∙ e, consumes.joins m.web n.web o.web l k);
}

looked_with :
    {A : Type 0} (look : Dir → Result OsError A) (os : List Outcome) (d : Dir)
    → (call_with (λ t d. (look d, d)) same os d).1.nodes ≡ d.nodes
looked_with look [] d = refl
looked_with look (o ∷ rest) d = elim (Bool-cases o.failed) [ inl f ↦ rw f refl | inr f ↦ rw f refl ]

Moves-stat : (path : Text) → Moves prepares (on_files (stat path))
unfolding on_files zoom stat call
Moves-stat path = record { at = λ m. (looked_with _ m.files.outcomes m.files, ([], refl)) }

pub Moves-read_file : (path : Text) → Moves prepares (on_files (read_file path))
unfolding on_files zoom read_file call
Moves-read_file path = record { at = λ m. (looked_with _ m.files.outcomes m.files, ([], refl)) }

Moves-must_be_regular : (node : Node) → Moves prepares (must_be_regular node)
Moves-must_be_regular (file b) = search moves_rules
Moves-must_be_regular directory = search moves_rules

Moves-snapshot_file : (path : Text) → Moves prepares (snapshot_file path)
unfolding snapshot_file
Moves-snapshot_file path = search (moves_rules, Moves-stat, Moves-read_file, Moves-must_be_regular)

pub Moves-snapshot : (path : Text) → Moves prepares (snapshot path)
unfolding wrapped
Moves-snapshot path = record { at = λ m. (Moves-snapshot_file path).at m }

module _ (path body : Text) where
  abbrev pub IsCopy : SavedFile → Type 0
  IsCopy saved = saved ≡ record { path = path; body = body }

  after_read :
      (m : Machine) (x : Result OsError Text × Dir) (nodes : List (Text × Node))
      → ReadOf body nodes x
      → WhenOk IsCopy
          (continue
            (map_error os x.0)
            (λ b.
              pure {E = UpdateError}
                (let saved : SavedFile = record { path = path; body = b } in saved))
            (record m { files = x.1 })).0
  after_read m (ok b, d) nodes (e, kept) = rw e refl
  after_read m (err e, d) nodes r = tt

  after_stat :
      (m : Machine) (x : Result UpdateError Node × Machine)
      → x.1.files.nodes ≡ m.files.nodes
      → Holds path body m
      → WhenOk IsCopy
          (continue x.0
            (λ node. do
              must_be_regular node
              b ← on_files (read_file path)
              pure (record { path = path; body = b }))
            x.1).0
  unfolding ◌>>=◌ on_files zoom
  after_stat m (ok (file b), s) same_as h =
      after_read s (read_file path s.files) s.files.nodes
        (read_file-ReadOf path body s.files (rw same_as h))
  after_stat m (ok directory, s) same_as h = tt
  after_stat m (err e, s) same_as h = tt

  renamed-WhenOk :
      (f : UpdateError → UpdateError) (r : Result UpdateError SavedFile)
      → WhenOk IsCopy r
      → WhenOk IsCopy (map_error f r)
  renamed-WhenOk f (ok saved) h = h
  renamed-WhenOk f (err e) h = tt

  pub snapshot-IsCopy : (m : Machine) → Holds path body m → WhenOk IsCopy (snapshot path m).0
  unfolding wrapped snapshot_file ◌>>=◌
  snapshot-IsCopy m h =
      renamed-WhenOk _ _ (after_stat m (on_files (stat path) m) ((Moves-stat path).at m).0 h)
