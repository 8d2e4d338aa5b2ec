-- ===== src/Update/Run/Concluded.antt =====
-- The two files across the steps of an update: what a step may leave there when it fails.
use homelab_inventory_agent.Prelude.{
  Text, List, [], Option, Bool, true, false, Result, ok, err, refl, if◌then◌else◌,
}
use homelab_inventory_agent.Exec.{continue, map_error, zoom, ◌>>=◌}
use homelab_inventory_agent.Exec.Moves.{Moves}
use homelab_inventory_agent.Exec.Ensures.{WhenOk}
use homelab_inventory_agent.Update.Machine.{
  Machine, W, Answer, ReleaseError, UpdateError, U, release, on_web,
}
use homelab_inventory_agent.Update.Platform.{Platform}
use homelab_inventory_agent.Update.Release.Served.{LeftOf, consumes}
use homelab_inventory_agent.Update.Run.Rollback.{Both, Both-Left, Left}
use homelab_inventory_agent.Update.Run.Snapshots.{prepares}

pub Moves-on_web : {A : Type 0} (m : W A) → Moves consumes m → Moves prepares (on_web m)
unfolding on_web zoom
Moves-on_web m h = record { at = λ s. (refl, h.at s.web) }

carried :
    {A : Type 0} (P : A → Type 0) (r : Result ReleaseError A)
    → WhenOk P r
    → WhenOk P (map_error release r)
carried P (ok a) h = h
carried P (err e) h = tt

pub on_web-WhenOk :
    {A : Type 0} (P : A → Type 0) (m : W A) (s : Machine)
    → WhenOk P (m s.web).0
    → WhenOk P (on_web m s).0
unfolding on_web zoom
on_web-WhenOk P m s h = carried P (m s.web).0 h

pub any : {A : Type 0} (r : Result UpdateError A) → WhenOk (λ a. Unit) r
any (ok a) = tt
any (err e) = tt

module _ (p : Platform) (old_binary old_service : Text) {B : Type 0}
    (Good : B → Machine → Type 0) where
  -- `Good` of a result, and the old files, with the exceptions of `Left`, of an error.
  abbrev pub Concluded : Result UpdateError B × Machine → Type 0
  Concluded (ok b, m) = Good b m
  Concluded (err e, m) =
      (binary : Text) × (service : Text) × Left p old_binary old_service binary service e m

  -- From the old files, and with no other answers of the endpoint than these.
  pub record Concludes (answers : List (Option Answer)) (m : U B) : Type 0 where
    pub at :
        (s : Machine)
        → Both p old_binary old_service s
        → LeftOf answers s.web.answers
        → Concluded (m s)

  pub continue-Concluded :
      (answers : List (Option Answer)) {A : Type 0} (P : A → Type 0)
      (x : Result UpdateError A × Machine) (f : A → U B)
      → Both p old_binary old_service x.1
      → LeftOf answers x.1.web.answers
      → WhenOk P x.0
      → ((a : A) → P a → Concludes answers (f a))
      → Concluded (continue x.0 f x.1)
  continue-Concluded answers P (ok a, t) f both left known next = (next a known).at t both left
  continue-Concluded answers P (err e, t) f both left known next =
      (old_binary, old_service, Both-Left p old_binary old_service old_binary old_service e t both)

  -- A step that changes no file, and what its result is known to be.
  pub Concludes-step :
      (answers : List (Option Answer)) {A : Type 0} (P : A → Type 0) (m : U A) (f : A → U B)
      → Moves prepares m
      → ((s : Machine)
          → Both p old_binary old_service s
          → LeftOf answers s.web.answers
          → WhenOk P (m s).0)
      → ((a : A) → P a → Concludes answers (f a))
      → Concludes answers (m >>= f)
  unfolding ◌>>=◌
  Concludes-step answers P m f moves known next = record {
    at = λ s both left.
        let (same, used) = moves.at s in
        continue-Concluded answers P (m s) f (rw same both)
          (consumes.joins (record { answers = answers; visited = [] }) s.web (m s).1.web left used)
          (known s both left) next;
  }

  pub Concludes-after :
      (answers : List (Option Answer)) {A : Type 0} (m : U A) (f : A → U B)
      → Moves prepares m
      → ((a : A) → Concludes answers (f a))
      → Concludes answers (m >>= f)
  Concludes-after answers m f moves next =
      Concludes-step answers (λ a. Unit) m f moves (λ s both left. any (m s).0) (λ a u. next a)

  pub Concludes-if :
      (answers : List (Option Answer)) (b : Bool) (m n : U B)
      → Concludes answers m
      → Concludes answers n
      → Concludes answers (if b then m else n)
  Concludes-if answers true m n hm hn = hm
  Concludes-if answers false m n hm hn = hn
