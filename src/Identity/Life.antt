-- ===== src/Identity/Life.antt =====
-- The life of an identity: reservations, failed ones, and restarts from its file.
use homelab_inventory_agent.Prelude.{
  ℕ, ◌<◌, u64_mod, List, [], ◌∷◌, Text, Option, none, some, Result, ok, err, All, ◌≡◌,
}
use homelab_inventory_agent.Os.{Dir, Node, OsError, not_exist, op_failed, read_file, plain}
use homelab_inventory_agent.Os.Frame.{ReadOf, read_file-ReadOf, plain-nodes}
use homelab_inventory_agent.Identity.{
  Persisted, Identity, IdentityError, Codec, identity_name, reserve_sequence, load_or_create,
  opened, checked, mode_checked,
}
use homelab_inventory_agent.Identity.Sequence.{
  ReadsBack, UpTo, OnDisk, IsFresh, Issues, reserve_sequence-Issues,
}

-- Loading an identity whose file has reached every issued number.
abbrev LoadsFresh : Codec → List ℕ → Result IdentityError Identity × Dir → Type 0
LoadsFresh codec issued (ok i, d) = IsFresh codec issued i
LoadsFresh codec issued (err e, d) = Unit

moded-LoadsFresh :
    (codec : Codec) (issued : List ℕ) (p : Persisted) (key : Option Text)
    (x : Result OsError (Unit {0}) × Dir)
    → OnDisk codec issued x.1.nodes
    → UpTo p.sequence issued
    → p.sequence < u64_mod
    → LoadsFresh codec issued (mode_checked codec p key x)
moded-LoadsFresh codec issued p none (ok u, d) h up fits = record {
  on_disk = h;
  in_memory = up;
  bounded = fits;
}
moded-LoadsFresh codec issued p (some key) (ok u, d) h up fits = record {
  on_disk = h;
  in_memory = up;
  bounded = fits;
}
moded-LoadsFresh codec issued p key (err e, d) h up fits = tt

checked-LoadsFresh :
    (codec : Codec) (issued : List ℕ) (o : Option IdentityError) (p : Persisted) (key : Option Text)
    (d : Dir)
    → OnDisk codec issued d.nodes
    → UpTo p.sequence issued
    → p.sequence < u64_mod
    → LoadsFresh codec issued (checked codec o p key d)
checked-LoadsFresh codec issued (some e) p key d h up fits = tt
checked-LoadsFresh codec issued none p key d h up fits =
    moded-LoadsFresh codec issued p key (plain d) (rw plain-nodes h) up fits

read-LoadsFresh :
    (codec : Codec) (issued : List ℕ) (key : Text) (nodes : List (Text × Node))
    (h : OnDisk codec issued nodes) (x : Result OsError Text × Dir)
    → ReadOf h.body nodes x
    → LoadsFresh codec issued (opened codec key x)
read-LoadsFresh codec issued key nodes h (ok b, d) (same, kept) =
    rw (same, h.readable)
      (checked-LoadsFresh codec issued _ h.stored _ d (rw kept h) h.reached h.fits)
read-LoadsFresh codec issued key nodes h (err not_exist, d) r = absurd r
read-LoadsFresh codec issued key nodes h (err op_failed, d) r = tt

load_or_create-LoadsFresh :
    (codec : Codec) (issued : List ℕ) (key : Text) (d : Dir)
    → OnDisk codec issued d.nodes
    → LoadsFresh codec issued (load_or_create codec key d)
unfolding load_or_create
load_or_create-LoadsFresh codec issued key d h =
    read-LoadsFresh codec issued key d.nodes h (read_file identity_name d)
      (read_file-ReadOf identity_name h.body d h.there)

-- The life of an identity: the numbers issued so far, the newest first. A restart loads the file from
-- the directory as the process left it, under failures of its own.
pub data Life (codec : Codec) : List ℕ → Identity → Type 0 where
  begin : (i : Identity) → IsFresh codec [] i → Life codec [] i
  issue :
      {ks : List ℕ} {i : Identity} (n : ℕ) (i' : Identity)
      → Life codec ks i
      → reserve_sequence codec i ≡ (ok n, i')
      → Life codec (n ∷ ks) i'
  refuse :
      {ks : List ℕ} {i : Identity} (e : IdentityError) (i' : Identity)
      → Life codec ks i
      → reserve_sequence codec i ≡ (err e, i')
      → Life codec ks i'
  restart :
      {ks : List ℕ} {i : Identity} (key : Text) (d d' : Dir) (i' : Identity)
      → Life codec ks i
      → d.nodes ≡ i.dir.nodes
      → load_or_create codec key d ≡ (ok i', d')
      → Life codec ks i'

-- Each number is above all that stand behind it, so that no two are the same.
abbrev pub Descending : List ℕ → Type 0
Descending [] = Unit
Descending (n ∷ ks) = All (λ k. k < n) ks × Descending ks

Life-IsFresh :
    (codec : Codec) {ks : List ℕ} {i : Identity}
    → ReadsBack codec
    → Life codec ks i
    → IsFresh codec ks i × Descending ks
Life-IsFresh codec back (begin i h) = (h, tt)
Life-IsFresh codec back (issue {ks = ks} {i = i} n i' l e) =
    let (fresh, falls) = Life-IsFresh codec back l in
    let (above, fresh') =
      let next : Issues codec ks (ok n, i') =
        rw e at (reserve_sequence-Issues codec ks i back fresh) in
      next in
    (fresh', (above, falls))
Life-IsFresh codec back (refuse {ks = ks} {i = i} e i' l q) =
    let (fresh, falls) = Life-IsFresh codec back l in
    let next : Issues codec ks (err e, i') =
      rw q at (reserve_sequence-Issues codec ks i back fresh) in
    (next, falls)
Life-IsFresh codec back (restart {ks = ks} {i = i} key d d' i' l same q) =
    let (fresh, falls) = Life-IsFresh codec back l in
    let next : LoadsFresh codec ks (ok i', d') =
      rw q at (load_or_create-LoadsFresh codec ks key d (rw same fresh.on_disk)) in
    (next, falls)

-- Over any life of an identity, with failing writes and restarts, each number that is issued is above
-- every number issued before: no signed request reuses a sequence number.
pub Life-Descending :
    (codec : Codec) (ks : List ℕ) (i : Identity) → ReadsBack codec → Life codec ks i → Descending ks
Life-Descending codec ks i back l = (Life-IsFresh codec back l).1
