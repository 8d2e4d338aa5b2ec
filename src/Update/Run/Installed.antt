-- ===== src/Update/Run/Installed.antt =====
-- internal/agentupdate/update.go: the part of an update that stops the service and replaces its files.
use homelab_inventory_agent.Prelude.{
  Bool, true, false, Text, Result, arith, ok, err, ◌≡◌, ◌≢◌, sym, ◌∙◌, inl, inr, refl,
}
use homelab_inventory_agent.Exec.{continue, map_error, zoom, ◌>>=◌, ◌>>◌}
use homelab_inventory_agent.Os.{Dir, OsError, find}
use homelab_inventory_agent.Os.Atomic.Synced.{Landed, synced_write-Landed, synced_write-Leaves}
use homelab_inventory_agent.Update.Machine.{
  Machine, UpdateError, U, os, stop_failed, binary_failed, on_files, wrapped, attempt,
}
use homelab_inventory_agent.Update.Platform.{update_prefix, replace_path, run_command}
use homelab_inventory_agent.Update.Platform.Commands.{Moves-run_command}
use homelab_inventory_agent.Update.Run.{
  Job, recover, rollback, or_rollback, finish, install, replace_binary,
}
use homelab_inventory_agent.Update.Run.Rollback.{
  PathsApart, Holds, Both, Settled, saved_binary, saved_service, unreplaced-Settled, finish-OkBoth,
  recovered-Settled,
}

module _ (job : Job) (old_binary old_service new_binary new_service : Text)
    (h : PathsApart job.platform) where
  open job.platform use {binary_path, service_path}

  abbrev Done : Result UpdateError (Unit {0}) × Machine → Type 0
  Done = Settled job.platform old_binary old_service new_binary new_service

  abbrev back : (replaced : Bool) → UpdateError → U (Unit {0})
  back =
      rollback job (saved_binary job old_binary old_service new_binary new_service h)
        (saved_service job old_binary old_service new_binary new_service h)

  finished-Settled :
      (m : Machine)
      → Holds binary_path new_binary m
      → Done (or_rollback (back true) (finish job new_service) m)
  unfolding or_rollback
  finished-Settled m b =
      recovered-Settled job old_binary old_service new_binary new_service h
        (finish job new_service m)
        (finish-OkBoth job old_binary old_service new_binary new_service h m b)

  raised-Settled :
      (x : Result UpdateError (Unit {0}) × Machine) (f : U (Unit {0}))
      → Done x
      → ((u : Unit {0}) → x.0 ≢ ok u)
      → Done (continue x.0 (λ _. f) x.1)
  raised-Settled (ok u, m) f d no_ok = absurd (no_ok u refl)
  raised-Settled (err e, m) f d no_ok = d

  -- A rollback never succeeds.
  rollback_raises :
      (replaced : Bool) (e : UpdateError) (m : Machine) (u : Unit {0})
      → (back replaced e m).0 ≢ ok u
  unfolding rollback attempt ◌>>=◌
  rollback_raises replaced e m u eq = ground (arith, eq)

  binary-Settled :
      (m : Machine) (x : Result OsError (Unit {0}) × Dir)
      → Landed binary_path new_binary m.files x
      → find service_path x.1.nodes ≡ find service_path m.files.nodes
      → Both job.platform old_binary old_service m
      → Done (
          continue
            (recover
              (back false)
              (map_error binary_failed (map_error os x.0), record m { files = x.1 })).0
            (λ _. or_rollback (back true) (finish job new_service))
            (recover
              (back false)
              (map_error binary_failed (map_error os x.0), record m { files = x.1 })).1)
  binary-Settled m (ok u, d) landed kept both = finished-Settled (record m { files = d }) landed
  binary-Settled m (err e, d) (inl new) kept both =
      raised-Settled (back false (binary_failed (os e)) (record m { files = d })) _
        (unreplaced-Settled job old_binary old_service new_binary new_service h (os e)
          (record m { files = d }) (inr new, kept ∙ both.1))
        (rollback_raises false (binary_failed (os e)) (record m { files = d }))
  binary-Settled m (err e, d) (inr old) kept both =
      raised-Settled (back false (binary_failed (os e)) (record m { files = d })) _
        (unreplaced-Settled job old_binary old_service new_binary new_service h (os e)
          (record m { files = d }) (inl (old ∙ both.0), kept ∙ both.1))
        (rollback_raises false (binary_failed (os e)) (record m { files = d }))

  replaced-Settled :
      (m : Machine)
      → Both job.platform old_binary old_service m
      → Done (
          (or_rollback (back false) (replace_binary job new_binary)
              >> or_rollback (back true) (finish job new_service))
            m)
  unfolding or_rollback replace_binary wrapped on_files zoom replace_path ◌>>=◌
  replaced-Settled m both =
      binary-Settled m (replace_path binary_path new_binary m.files)
        (synced_write-Landed (update_prefix binary_path) binary_path new_binary m.files
          h.binary_temp)
        ((synced_write-Leaves (update_prefix binary_path) service_path binary_path new_binary
            (λ e. h.apart (sym e)) h.binary_crossed).at
          m.files)
        both

  stopped-Settled :
      (m : Machine) (x : Result UpdateError (Unit {0}) × Machine) (f : U (Unit {0}))
      → x.1.files ≡ m.files
      → Both job.platform old_binary old_service m
      → ((s : Machine) → Both job.platform old_binary old_service s → Done (f s))
      → Done (continue (map_error stop_failed x.0) (λ _. f) x.1)
  stopped-Settled m (ok u, s) f same both next = next s (rw same both)
  stopped-Settled m (err e, s) f same both next = rw same both

  -- Whichever calls fail, an update that succeeds has put the new executable and the new service file
  -- in place, and one that fails has left both as they were, unless it says that the rollback was
  -- incomplete, or that writing the executable failed, when the executable may be the new one.
  pub install-Settled :
      (m : Machine)
      → Both job.platform old_binary old_service m
      → Done (
          install job new_binary new_service
            (saved_binary job old_binary old_service new_binary new_service h)
            (saved_service job old_binary old_service new_binary new_service h)
            m)
  unfolding install wrapped ◌>>=◌
  install-Settled m both =
      stopped-Settled m (run_command job.platform.stop m) _ ((Moves-run_command _).at m) both
        replaced-Settled
