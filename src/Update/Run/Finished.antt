-- ===== src/Update/Run/Finished.antt =====
-- The whole update run, with its lock.
use homelab_inventory_agent.Prelude.{
  ℤ, List, [], Text, text_eq_iff, Bool, true, false, Option, none, some, Result, ok, err, ◌≡◌, ◌≢◌,
  refl, ◌∙◌, inl, inr, arith, ◌⊎◌,
}
use homelab_inventory_agent.Exec.{zoom, continue, pure, ◌>>=◌, ◌>>◌}
use homelab_inventory_agent.Exec.Moves.{
  Moves, Moves-lift, Moves-check, Moves-if, Moves-bind, Moves-pure,
}
use homelab_inventory_agent.Os.{Dir, Node, file, same, find, find-store, remove, read_file}
use homelab_inventory_agent.Os.Frame.{Leaves, Leaves-remove, Leaves-call}
use homelab_inventory_agent.Config.{Config, Paths}
use homelab_inventory_agent.Update.Version.{Order}
use homelab_inventory_agent.Update.Machine.{
  Machine, Answer, UpdateError, rollback_incomplete, binary_failed, not_restored, U, on_files,
}
use homelab_inventory_agent.Update.Platform.{Platform}
use homelab_inventory_agent.Update.Release.{Libraries, ReleaseClient, current}
use homelab_inventory_agent.Update.Release.Served.{LeftOf, Moves-current}
use homelab_inventory_agent.Update.Run.{
  Options, UpdateResult, Job, lock_of, create_if_new, create_exclusive, take_lock, finally_unlock,
  read_config, choose_target, report, locked_install, run,
}
use homelab_inventory_agent.Update.Run.Rollback.{PathsApart, Holds, Both, Left}
use homelab_inventory_agent.Update.Run.Snapshots.{prepares, Moves-read_file}
use homelab_inventory_agent.Update.Run.Concluded.{
  any, continue-Concluded, Concluded, Concludes, Concludes-step, Concludes-after, Concludes-if,
  Moves-on_web,
}
use homelab_inventory_agent.Update.Run.Released.{Installed, release-Concludes}

create_if_new-at :
    (o : Option Node) (name path : Text) (d : Dir)
    → path ≢ name
    → find name (create_if_new o path d).1.nodes ≡ find name d.nodes
create_if_new-at none name path d ne =
    ground (arith, find-store path name (file []) d.nodes, text_eq_iff path name)
create_if_new-at (some n) name path d ne = refl

Leaves-create_exclusive : (name path : Text) → path ≢ name → Leaves name (create_exclusive path)
unfolding create_exclusive
Leaves-create_exclusive name path ne =
    Leaves-call name _ _ (λ t d. create_if_new-at (find path d.nodes) name path d ne) (λ t d. refl)

-- The two files are the same in both states.
abbrev Agree : Platform → Machine → Machine → Type 0
Agree p s t =
    (find p.binary_path t.files.nodes ≡ find p.binary_path s.files.nodes)
    × (find p.service_path t.files.nodes ≡ find p.service_path s.files.nodes)

Agree-Both :
    (p : Platform) (binary service : Text) (s t : Machine)
    → Agree p s t
    → Both p binary service s
    → Both p binary service t
Agree-Both p binary service s t (a, b) (x, y) = (a ∙ x, b ∙ y)

module _ (p : Platform) (old_binary old_service new_binary new_service : Text) (s t : Machine) where
  Agree-Unsure :
      Agree p s t
      → (Holds p.binary_path old_binary s ⊎ Holds p.binary_path new_binary s)
        × Holds p.service_path old_service s
      → (Holds p.binary_path old_binary t ⊎ Holds p.binary_path new_binary t)
        × Holds p.service_path old_service t
  Agree-Unsure (a, b) (inl x, y) = (inl (a ∙ x), b ∙ y)
  Agree-Unsure (a, b) (inr x, y) = (inr (a ∙ x), b ∙ y)

  Agree-Left :
      (e : UpdateError)
      → Agree p s t
      → Left p old_binary old_service new_binary new_service e s
      → Left p old_binary old_service new_binary new_service e t
  Agree-Left (rollback_incomplete e) a h = tt
  Agree-Left (binary_failed e) a h = Agree-Unsure a h
  Agree-Left (not_restored e) a h = Agree-Unsure a h
  Agree-Left e a h = Agree-Both p old_binary old_service s t a h

module _ (lib : Libraries) (p : Platform) (old_binary old_service : Text)
    (answers : List (Option Answer)) where
  -- An update that was made, and a run that found none to make or was only to look.
  abbrev pub Reached : Text → Bool → Machine → Type 0
  Reached version true m = Installed lib p answers version m
  Reached version false m = Both p old_binary old_service m

  abbrev Good : UpdateResult → Machine → Type 0
  Good r m = Reached r.target_version r.updated m

  -- What a run ends in.
  abbrev pub Finished : Result UpdateError UpdateResult × Machine → Type 0
  Finished = Concluded p old_binary old_service Good

  Agree-Reached :
      (version : Text) (b : Bool) (s t : Machine)
      → Agree p s t
      → Reached version b s
      → Reached version b t
  Agree-Reached version true s t agree h = record {
    listed = h.listed;
    served = h.served;
    acceptable = h.acceptable;
    binary = h.binary;
    service = h.service;
    binary_vouched = h.binary_vouched;
    service_vouched = h.service_vouched;
    both = Agree-Both p h.binary h.service s t agree h.both;
  }
  Agree-Reached version false s t agree both = Agree-Both p old_binary old_service s t agree both

  Agree-Finished :
      (r : Result UpdateError UpdateResult) (s t : Machine)
      → Agree p s t
      → Finished (r, s)
      → Finished (r, t)
  Agree-Finished (ok r) s t agree h = Agree-Reached r.target_version r.updated s t agree h
  Agree-Finished (err e) s t agree (binary, service, left) =
      (binary, service, Agree-Left p old_binary old_service binary service s t e agree left)

  reported-Finished :
      (r : UpdateResult) (x : Result UpdateError (Unit {0}) × Machine)
      → r.updated ≡ true
      → Concluded p old_binary old_service (λ u. Installed lib p answers r.target_version) x
      → Finished (continue x.0 (λ u. pure r) x.1)
  reported-Finished r (ok u, m) e h = rw e h
  reported-Finished r (err x, m) e h = h

  module _ (lock : Text) (lock_binary : lock ≢ p.binary_path)
      (lock_service : lock ≢ p.service_path) where
    taken-Agree : (s : Machine) → Agree p s (take_lock lock s).1
    unfolding take_lock
    taken-Agree s = (
      (Leaves-create_exclusive p.binary_path lock lock_binary).at s.files,
      (Leaves-create_exclusive p.service_path lock lock_service).at s.files,
    )

    taken-LeftOf :
        (s : Machine)
        → LeftOf answers s.web.answers
        → LeftOf answers (take_lock lock s).1.web.answers
    unfolding take_lock
    taken-LeftOf s left = left

    unlocked-Agree : (s : Machine) → Agree p s (record s { files = (remove lock s.files).1 })
    unlocked-Agree s = (
      (Leaves-remove p.binary_path lock lock_binary).at s.files,
      (Leaves-remove p.service_path lock lock_service).at s.files,
    )

    unlocked-Concludes :
        (m : U UpdateResult)
        → Concludes p old_binary old_service Good answers m
        → Concludes p old_binary old_service Good answers (finally_unlock lock m)
    unfolding finally_unlock
    unlocked-Concludes m h = record {
      at = λ s both left.
          Agree-Finished (m s).0 (m s).1 _ (unlocked-Agree (m s).1) (h.at s both left);
    }

    locked-Concludes :
        (m : U UpdateResult)
        → Concludes p old_binary old_service Good answers m
        → Concludes p old_binary old_service Good answers (take_lock lock >> m)
    unfolding ◌>>=◌
    locked-Concludes m h = record {
      at = λ s both left.
          continue-Concluded p old_binary old_service Good answers (λ u. Unit) (take_lock lock s) _
            (Agree-Both p old_binary old_service s (take_lock lock s).1 (taken-Agree s) both)
            (taken-LeftOf s left) (any (take_lock lock s).0) (λ u k. h);
    }

Moves-read_config :
    (paths : Paths) (decode : Text → Option Config) (path : Text)
    → Moves prepares (read_config paths decode path)
unfolding read_config on_files read_file zoom
Moves-read_config paths decode path = record { at = λ m. (Moves-read_file path).at m }

Moves-choose_target :
    (lib : Libraries) (client : ReleaseClient) (requested : Text)
    → Moves prepares (choose_target lib client requested)
unfolding choose_target
Moves-choose_target lib client requested =
    Moves-if prepares _ _ _
      (Moves-bind prepares _ _ (Moves-on_web (current lib client) (Moves-current lib client))
        (λ found. Moves-pure prepares _))
      (Moves-pure prepares _)

module _ (lib : Libraries) (o : Options) (p : Platform) (old_binary old_service : Text)
    (h : PathsApart p) (lock_binary : lock_of o p ≢ p.binary_path)
    (lock_service : lock_of o p ≢ p.service_path) (answers : List (Option Answer)) where
  abbrev Ends : U UpdateResult → Type 0
  Ends = Concludes p old_binary old_service (Good lib p old_binary old_service answers) answers

  installed-Ends :
      (client : ReleaseClient) (target url : Text) (checks : ℤ) (waits : Bool) (order : Order)
      → Ends (
          let job : Job = record {
            platform = p;
            client = client;
            target = target;
            manifest_url = url;
            checks = checks;
            waits = waits;
          } in
          locked_install lib o job order)
  unfolding locked_install ◌>>=◌
  installed-Ends client target url checks waits order =
      locked-Concludes lib p old_binary old_service answers (lock_of o p) lock_binary lock_service _
        (unlocked-Concludes lib p old_binary old_service answers (lock_of o p) lock_binary
          lock_service _
          (record {
            at = λ s both left.
                reported-Finished lib p old_binary old_service answers _ _ refl
                  ((release-Concludes lib _ old_binary old_service h answers).at s both left);
          }))

  moved-Ends :
      (q : Platform)
      → q ≡ p
      → (client : ReleaseClient) (target url : Text) (checks : ℤ) (waits : Bool) (order : Order)
      → Ends (
          let job : Job = record {
            platform = q;
            client = client;
            target = target;
            manifest_url = url;
            checks = checks;
            waits = waits;
          } in
          locked_install lib o job order)
  moved-Ends q same client target url checks waits order =
      rw same (installed-Ends client target url checks waits order)

  pure-Ends : (r : UpdateResult) → r.updated ≡ false → Ends (pure r)
  pure-Ends r e = record { at = λ s both left. rw e both }

  run-Ends :
      (paths : Paths) (decode : Text → Option Config)
      → o.platform ≡ ok p
      → Ends (run lib paths decode o)
  unfolding run
  run-Ends paths decode e = Concludes-after _ _ _ Goal answers _ _ (Moves-check prepares _) (λ _.
      Concludes-after _ _ _ Goal answers _ _ (Moves-check prepares _) (λ _.
        Concludes-after _ _ _ Goal answers _ _ (Moves-read_config paths decode _) (λ configuration.
          Concludes-step _ _ _ Goal answers (λ q. q ≡ p) _ _ (Moves-lift prepares _)
            (λ s both left. rw e refl)
            (λ q same. Concludes-after _ _ _ Goal answers _ _ (Moves-lift prepares _) (λ client.
              Concludes-after _ _ _ Goal answers _ _ (Moves-choose_target lib client _) (λ chosen.
                Concludes-after _ _ _ Goal answers _ _ (Moves-lift prepares _) (λ order.
                  Concludes-if _ _ _ Goal answers _ _ _
                    (pure-Ends (report o chosen.0 order false) refl)
                    (moved-Ends q same client chosen.0 chosen.1 _ _ order))))))))
    where
      Goal : UpdateResult → Machine → Type 0
      Goal = Good lib p old_binary old_service answers

-- Whatever the endpoint, the commands and the file system do: an update that is reported as made has put
-- in both files what one manifest lists for the platform, of the size and the digest that it gives, where
-- the manifest is sound, of the version that is reported, and was read from one of the endpoint's answers.
-- A run that made none, and one that failed, has left both files as they were, unless it says that the
-- rollback was incomplete, or that writing the executable failed, when only the executable may be new.
-- The paths and the lock must be apart.
pub run-Finished :
    (lib : Libraries) (paths : Paths) (decode : Text → Option Config) (o : Options) (p : Platform)
    (old_binary old_service : Text) (m : Machine)
    → o.platform ≡ ok p
    → PathsApart p
    → lock_of o p ≢ p.binary_path
    → lock_of o p ≢ p.service_path
    → Both p old_binary old_service m
    → Finished lib p old_binary old_service m.web.answers (run lib paths decode o m)
run-Finished lib paths decode o p old_binary old_service m e h lock_binary lock_service both =
    (run-Ends lib o p old_binary old_service h lock_binary lock_service m.web.answers paths decode
        e).at
      m both ([], refl)
