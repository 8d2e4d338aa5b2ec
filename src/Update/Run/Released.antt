-- ===== src/Update/Run/Released.antt =====
-- The update from the manifest on: the assets that are looked up in it, their downloads and the
-- installation.
use homelab_inventory_agent.Prelude.{
  List, [], ◌∷◌, Text, All, Option, none, some, Result, ok, err, ◌≡◌, refl, sym,
}
use homelab_inventory_agent.Exec.{lift, ◌>>=◌}
use homelab_inventory_agent.Exec.Moves.{Moves-lift}
use homelab_inventory_agent.Exec.Ensures.{WhenOk}
use homelab_inventory_agent.Assoc
use homelab_inventory_agent.Distinct.{Occurs, behind-Occurs, All-Occurs}
use homelab_inventory_agent.Update.Machine.{Answer, Machine, UpdateError, U, on_web}
use homelab_inventory_agent.Update.Platform.{Platform, SavedFile}
use homelab_inventory_agent.Update.Release.{Libraries, Asset, Manifest, download}
use homelab_inventory_agent.Update.Release.Assets.{
  Genuine, download-Genuine, Acceptable, manifest-Acceptable,
}
use homelab_inventory_agent.Update.Release.Served.{
  LeftOf, Served, manifest-Served, Moves-manifest, Moves-download,
}
use homelab_inventory_agent.Update.Run.{
  Job, assets_by_path, find_asset, snapshot, install, install_release,
}
use homelab_inventory_agent.Update.Run.Rollback.{PathsApart, Both, Settled}
use homelab_inventory_agent.Update.Run.Installed.{install-Settled}
use homelab_inventory_agent.Update.Run.Snapshots.{prepares, Moves-snapshot, IsCopy, snapshot-IsCopy}
use homelab_inventory_agent.Update.Run.Concluded.{
  Concluded, Concludes, Concludes-step, Moves-on_web, on_web-WhenOk,
}

-- The body is that of the asset which the manifest lists under the path.
pub record Vouched (lib : Libraries) (listed : Manifest) (path body : Text) : Type 0 where
  pub item : Asset
  pub item_listed : Occurs item listed.assets
  pub item_path : item.path ≡ path
  pub genuine : Genuine lib item body

-- Both files hold what one manifest lists for the platform: a manifest of the version, sound, that one
-- of the answers served.
pub record Installed (lib : Libraries) (p : Platform) (answers : List (Option Answer))
    (version : Text) (m : Machine) : Type 0 where
  pub listed : Manifest
  pub served : Served lib answers listed
  pub acceptable : Acceptable lib version listed
  pub binary : Text
  pub service : Text
  pub binary_vouched : Vouched lib listed p.binary_asset binary
  pub service_vouched : Vouched lib listed p.service_asset service
  pub both : Both p binary service m

-- An asset of the list, by its path.
abbrev Entered : List Asset → Text → Asset → Type 0
Entered items path item = (item.path ≡ path) × Occurs item items

assets_by_path-Entered :
    (items more : List Asset) (m : List (Text × Asset))
    → All (λ item. Occurs item items) more
    → All (λ entry. Entered items entry.0 entry.1) m
    → All (λ entry. Entered items entry.0 entry.1) (assets_by_path more m)
unfolding assets_by_path
assets_by_path-Entered items [] m h hs = hs
assets_by_path-Entered items (item ∷ more) m (h, rest) hs =
    assets_by_path-Entered items more (Assoc.set item.path item m) rest
      (Assoc.set-All (λ entry. Entered items entry.0 entry.1) item.path item m (refl, h) hs)

find_asset-Entered :
    (items : List Asset) (path : Text) (o : Option Asset)
    → Assoc.Found (Entered items path) o
    → WhenOk (Entered items path) (find_asset o)
find_asset-Entered items path none h = tt
find_asset-Entered items path (some item) h = h

found-Entered :
    (items : List Asset) (path : Text)
    → WhenOk (Entered items path) (find_asset (Assoc.get (assets_by_path items []) path))
found-Entered items path =
    find_asset-Entered items path (Assoc.get (assets_by_path items []) path) (
      Assoc.get-Keyed (Entered items) path (assets_by_path items [])
        (assets_by_path-Entered items items [] (All-Occurs items) tt))

both-WhenOk :
    {E A : Type 0} (P Q : A → Type 0) (r : Result E A)
    → WhenOk P r
    → WhenOk Q r
    → WhenOk (λ a. P a × Q a) r
both-WhenOk P Q (ok a) h k = (h, k)
both-WhenOk P Q (err e) h k = tt

earlier-Served :
    (lib : Libraries) (answers rest : List (Option Answer)) (r : Manifest)
    → LeftOf answers rest
    → Served lib rest r
    → Served lib answers r
earlier-Served lib answers rest listed (used, e) (a, stands, good, read) =
    (a, rw (sym e) (behind-Occurs used rest (some a) stands), good, read)

weaker-WhenOk :
    {E A : Type 0} (P Q : A → Type 0) (r : Result E A)
    → ((a : A) → P a → Q a)
    → WhenOk P r
    → WhenOk Q r
weaker-WhenOk P Q (ok a) f h = f a h
weaker-WhenOk P Q (err e) f h = tt

module _ (lib : Libraries) (job : Job) (old_binary old_service : Text) (h : PathsApart job.platform)
    (answers : List (Option Answer)) where
  open job.platform use {binary_path, service_path, binary_asset, service_asset}

  abbrev Good : Unit {0} → Machine → Type 0
  Good u = Installed lib job.platform answers job.target

  abbrev Ends : U (Unit {0}) → Type 0
  Ends = Concludes job.platform old_binary old_service Good answers

  module _ (listed : Manifest) (served : Served lib answers listed)
      (acceptable : Acceptable lib job.target listed) where
    Settled-Concluded :
        (binary service : Text) (x : Result UpdateError (Unit {0}) × Machine)
        → Vouched lib listed binary_asset binary
        → Vouched lib listed service_asset service
        → Settled job.platform old_binary old_service binary service x
        → Concluded job.platform old_binary old_service Good x
    Settled-Concluded binary service (ok u, m) vb vs both = record {
      listed = listed;
      served = served;
      acceptable = acceptable;
      binary = binary;
      service = service;
      binary_vouched = vb;
      service_vouched = vs;
      both = both;
    }
    Settled-Concluded binary service (err e, m) vb vs left = (binary, service, left)

    install-Concludes :
        (binary service : Text) (sb ss : SavedFile)
        → Vouched lib listed binary_asset binary
        → Vouched lib listed service_asset service
        → IsCopy binary_path old_binary sb
        → IsCopy service_path old_service ss
        → Ends (install job binary service sb ss)
    install-Concludes binary service sb ss vb vs eb es = record {
      at = λ s both left.
          rw (eb, es)
            (Settled-Concluded binary service _ vb vs
              (install-Settled job old_binary old_service binary service h s both));
    }

    copied :
        (binary service : Text)
        → Vouched lib listed binary_asset binary
        → Vouched lib listed service_asset service
        → Ends (do
          sb ← snapshot binary_path
          ss ← snapshot service_path
          install job binary service sb ss)
    copied binary service vb vs =
        Concludes-step _ _ _ Good answers (IsCopy binary_path old_binary) _ _ (Moves-snapshot _)
          (λ s both left. snapshot-IsCopy _ _ s both.0)
          (λ sb eb.
            Concludes-step _ _ _ Good answers (IsCopy service_path old_service) _ _
              (Moves-snapshot _) (λ s both left. snapshot-IsCopy _ _ s both.1)
              (λ ss es. install-Concludes binary service sb ss vb vs eb es))

    downloaded :
        (path : Text) (a : Asset) (f : Text → U (Unit {0}))
        → Entered listed.assets path a
        → ((body : Text) → Vouched lib listed path body → Ends (f body))
        → Ends (on_web (download lib job.client job.target a) >>= f)
    downloaded path a f (same, stands) next =
        Concludes-step _ _ _ Good answers (Genuine lib a) _ f
          (Moves-on_web _ (Moves-download lib job.client job.target a))
          (λ s both left.
            on_web-WhenOk (Genuine lib a) _ s
              ((download-Genuine lib job.client job.target a).at s.web))
          (λ body genuine.
            next body
              (record { item = a; item_listed = stands; item_path = same; genuine = genuine }))

    looked_up :
        (path : Text) (f : Asset → U (Unit {0}))
        → ((a : Asset) → Entered listed.assets path a → Ends (f a))
        → Ends (lift (find_asset (Assoc.get (assets_by_path listed.assets []) path)) >>= f)
    looked_up path f next =
        Concludes-step _ _ _ Good answers (Entered listed.assets path) _ f (Moves-lift prepares _)
          (λ s both left. found-Entered listed.assets path) next

  pub release-Concludes : Ends (install_release lib job)
  unfolding install_release
  release-Concludes =
      Concludes-step _ _ _ Good answers
        (λ listed. Served lib answers listed × Acceptable lib job.target listed) _ _
        (Moves-on_web _ (Moves-manifest lib job.client job.target job.manifest_url))
        (λ s both left. on_web-WhenOk _ _ s (
          both-WhenOk (Served lib answers) (Acceptable lib job.target) _
            (weaker-WhenOk (Served lib s.web.answers) (Served lib answers) _
              (λ listed. earlier-Served lib answers s.web.answers listed left)
              (manifest-Served lib job.client job.target job.manifest_url s.web))
            (manifest-Acceptable lib job.client job.target job.manifest_url s.web)))
        (λ listed (served, acceptable). looked_up listed served acceptable binary_asset _ (λ a ea.
          looked_up listed served acceptable service_asset _ (λ b eb.
            downloaded listed served acceptable binary_asset a _ ea (λ binary vb.
              downloaded listed served acceptable service_asset b _ eb
                (λ service vs. copied listed served acceptable binary service vb vs)))))
