-- ===== src/Update/Run/Rollback.antt =====
-- What an update leaves in the executable and the service file, whichever steps fail.
use homelab_inventory_agent.Prelude.{
  ◌||◌, ◌++◌, Text, Bool, true, false, some, Result, ok, err, ◌≡◌, ◌≢◌, refl, ◌∙◌, ◌⊎◌, inl, arith,
  if◌then◌else◌,
}
use homelab_inventory_agent.Exec.{continue, map_error, zoom, ◌>>=◌}
use homelab_inventory_agent.Exec.Moves.{Moves, Moves-bind}
use homelab_inventory_agent.Os.{Dir, file, OsError, find}
use homelab_inventory_agent.Os.Atomic.Synced.{Landed, synced_write-Landed, synced_write-Leaves}
use homelab_inventory_agent.Update.Machine.{
  Machine, UpdateError, os, U, service_failed, unhealthy, rollback_incomplete, not_restored,
  binary_failed, on_files, attempt, wrapped,
}
use homelab_inventory_agent.Update.Platform.{
  Platform, SavedFile, update_prefix, replace_path, wait_for_sustained_health,
}
use homelab_inventory_agent.Update.Platform.Commands.{
  same_files, Moves-run_command, Moves-health, Moves-output,
}
use homelab_inventory_agent.Update.Run.{
  Job, failed, restore, restart_health, rollback, recover, finish, verify_version, replace_service,
}

-- The two files are different, and neither is named like a temporary file of the other.
pub record PathsApart (p : Platform) : Type 0 where
  pub apart : p.binary_path ≢ p.service_path
  pub binary_temp : (t : Text) → update_prefix p.binary_path ++ t ≢ p.binary_path
  pub service_temp : (t : Text) → update_prefix p.service_path ++ t ≢ p.service_path
  pub binary_crossed : (t : Text) → update_prefix p.binary_path ++ t ≢ p.service_path
  pub service_crossed : (t : Text) → update_prefix p.service_path ++ t ≢ p.binary_path

abbrev pub Holds : Text → Text → Machine → Type 0
Holds path body m = find path m.files.nodes ≡ some (file body)

module _ (p : Platform) (binary_body service_body : Text) where
  abbrev pub Both : Machine → Type 0
  Both m = Holds p.binary_path binary_body m × Holds p.service_path service_body m

module _ (p : Platform) (old_binary old_service new_binary new_service : Text) where
  -- A failed write of the executable is not undone: it may have failed behind its rename.
  abbrev pub Left : UpdateError → Machine → Type 0
  Left (rollback_incomplete e) m = Unit
  Left (binary_failed e) m =
      (Holds p.binary_path old_binary m ⊎ Holds p.binary_path new_binary m)
      × Holds p.service_path old_service m
  Left (not_restored e) m =
      (Holds p.binary_path old_binary m ⊎ Holds p.binary_path new_binary m)
      × Holds p.service_path old_service m
  Left _ m = Both p old_binary old_service m

  -- Both files are new, or the update failed and both are old, but for an incomplete rollback and for
  -- an executable whose write failed.
  abbrev pub Settled : Result UpdateError (Unit {0}) × Machine → Type 0
  Settled (ok u, m) = Both p new_binary new_service m
  Settled (err e, m) = Left e m

  pub Both-Left : (e : UpdateError) (m : Machine) → Both p old_binary old_service m → Left e m
  Both-Left (rollback_incomplete e) m h = tt
  Both-Left (binary_failed e) m h = (inl h.0, h.1)
  Both-Left (not_restored e) m h = (inl h.0, h.1)
  Both-Left e m h = h

or_false : (a b : Bool) → (a || b) ≡ false → (a ≡ false) × (b ≡ false)
or_false a b h = ground arith

Landed-Holds :
    (path body : Text) (m : Machine) (x : Result OsError (Unit {0}) × Dir)
    → Landed path body m.files x
    → failed (map_error os x.0) ≡ false
    → find path x.1.nodes ≡ some (file body)
Landed-Holds path body m (ok u, d) h e = h
Landed-Holds path body m (err x, d) h e = ground (arith, e)

write-Holds :
    (path body : Text) (m : Machine)
    → ((t : Text) → update_prefix path ++ t ≢ path)
    → failed (on_files (replace_path path body) m).0 ≡ false
    → Holds path body (on_files (replace_path path body) m).1
unfolding on_files zoom replace_path
write-Holds path body m ne =
    Landed-Holds path body m _ (synced_write-Landed (update_prefix path) path body m.files ne)

write-keeps :
    (path other body : Text) (m : Machine)
    → other ≢ path
    → ((t : Text) → update_prefix path ++ t ≢ other)
    → find other (on_files (replace_path path body) m).1.files.nodes ≡ find other m.files.nodes
unfolding on_files zoom replace_path
write-keeps path other body m ne nt =
    (synced_write-Leaves (update_prefix path) other path body ne nt).at m.files

Moves-restart_health :
    (job : Job) (r : Result UpdateError (Unit {0})) → Moves same_files (restart_health job r)
unfolding restart_health
Moves-restart_health job (ok u) = Moves-health _ _ _
Moves-restart_health job (err e) = record { at = λ m. refl }

module _ (job : Job) (old_binary old_service new_binary new_service : Text)
    (h : PathsApart job.platform) where
  open job.platform use {binary_path, service_path}

  abbrev pub saved_binary : SavedFile
  saved_binary = record { path = binary_path; body = old_binary }

  abbrev pub saved_service : SavedFile
  saved_service = record { path = service_path; body = old_service }

  abbrev pub Ends : Result UpdateError (Unit {0}) × Machine → Type 0
  Ends = Settled job.platform old_binary old_service new_binary new_service

  raised-Settled :
      (failure : Bool) (cause : UpdateError) (s t : Machine)
      → t.files ≡ s.files
      → (failure ≡ false → Both job.platform old_binary old_service s)
      → Ends (err (if failure then rollback_incomplete cause else cause), t)
  raised-Settled true cause s t e both = tt
  raised-Settled false cause s t e both =
      Both-Left job.platform old_binary old_service new_binary new_service cause t
        (rw e (both refl))

  -- A rollback of replaced files ends with both as they were, unless it says that it is incomplete.
  rollback-Settled :
      (cause : UpdateError) (m : Machine)
      → Ends (rollback job saved_binary saved_service true cause m)
  unfolding rollback attempt ◌>>=◌ restore
  rollback-Settled cause m =
      raised-Settled _ cause two _
        ((Moves-restart_health job _).at _
          ∙ ((Moves-run_command _).at _ ∙ (Moves-run_command _).at two))
        (λ fine.
          let (binary_fine, service_fine) = or_false _ _ (or_false _ _ (or_false _ _ fine).0).0 in
          (
            write-keeps service_path binary_path old_service one h.apart h.service_crossed
                ∙ write-Holds binary_path old_binary m h.binary_temp binary_fine,
            write-Holds service_path old_service one h.service_temp service_fine,
          ))
    where
      one : Machine
      one = (on_files (replace_path binary_path old_binary) m).1

      two : Machine
      two = (on_files (replace_path service_path old_service) one).1

  -- The service file is the old one, the executable the old one or the new one.
  abbrev pub Unsure : Machine → Type 0
  Unsure m =
      (Holds binary_path old_binary m ⊎ Holds binary_path new_binary m)
      × Holds service_path old_service m

  Unsure-Settled :
      (failure : Bool) (e : UpdateError) (s t : Machine)
      → t.files ≡ s.files
      → Unsure s
      → Ends (err (if failure then not_restored (binary_failed e) else binary_failed e), t)
  Unsure-Settled true e s t same u = rw same u
  Unsure-Settled false e s t same u = rw same u

  pub unreplaced-Settled :
      (e : UpdateError) (m : Machine)
      → Unsure m
      → Ends (rollback job saved_binary saved_service false (binary_failed e) m)
  unfolding rollback attempt ◌>>=◌ restore
  unreplaced-Settled e m u =
      Unsure-Settled _ e m _
        ((Moves-restart_health job _).at _
          ∙ ((Moves-run_command _).at _ ∙ (Moves-run_command _).at m))
        u

  -- A successful step ends with both files new.
  abbrev pub OkBoth : Result UpdateError (Unit {0}) × Machine → Type 0
  OkBoth (ok u, m) = Both job.platform new_binary new_service m
  OkBoth (err e, m) = Unit

  kept-OkBoth :
      (x : Result UpdateError (Unit {0}) × Machine) (s : Machine)
      → x.1.files ≡ s.files
      → Both job.platform new_binary new_service s
      → OkBoth x
  kept-OkBoth (ok u, m) s e both = rw e both
  kept-OkBoth (err e, m) s same both = tt

  verify-Moves : Moves same_files (verify_version job.platform job.target)
  unfolding verify_version
  verify-Moves = record { at = λ m. (Moves-output _).at m }

  wrapped-Moves :
      Moves same_files
        (wrapped unhealthy (wait_for_sustained_health job.platform.health job.checks job.waits))
  unfolding wrapped
  wrapped-Moves = record { at = λ m. (Moves-health _ _ _).at m }

  service-OkBoth :
      (m : Machine) (x : Result OsError (Unit {0}) × Dir) (f : U (Unit {0}))
      → Landed service_path new_service m.files x
      → find binary_path x.1.nodes ≡ some (file new_binary)
      → Moves same_files f
      → OkBoth (
          continue
            (map_error service_failed (map_error os x.0))
            (λ _. f)
            (record m { files = x.1 }))
  service-OkBoth m (ok u, d) f landed b moves =
      kept-OkBoth (f (record m { files = d })) (record m { files = d }) (moves.at _) (b, landed)
  service-OkBoth m (err e, d) f landed b moves = tt

  pub finish-OkBoth :
      (m : Machine) → Holds binary_path new_binary m → OkBoth (finish job new_service m)
  unfolding finish replace_service wrapped on_files zoom replace_path ◌>>=◌
  finish-OkBoth m b =
      service-OkBoth m _ _
        (synced_write-Landed (update_prefix service_path) service_path new_service m.files
          h.service_temp)
        ((synced_write-Leaves (update_prefix service_path) binary_path service_path new_service
              h.apart h.service_crossed).at
            m.files
          ∙ b)
        (Moves-bind same_files _ _ verify-Moves (λ _.
          Moves-bind same_files _ _ (Moves-run_command _)
            (λ _. Moves-bind same_files _ _ (Moves-run_command _) (λ _. wrapped-Moves))))

  pub recovered-Settled :
      (x : Result UpdateError (Unit {0}) × Machine)
      → OkBoth x
      → Ends (recover (rollback job saved_binary saved_service true) x)
  recovered-Settled (ok u, m) both = both
  recovered-Settled (err e, m) both = rollback-Settled e m
