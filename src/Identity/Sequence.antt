-- ===== src/Identity/Sequence.antt =====
-- Sequence numbers over the life of an identity: reservations, failed ones, and restarts.
use homelab_inventory_agent.Prelude.{
  ℕ, ◌+◌, ◌-◌, ◌≤◌, ◌<◌, ◌==◌, u64_mod, List, [], ◌∷◌, ◌++◌, Text, some, Result, ok, err, All, ◌≡◌,
  arith, inl, inr, Bool-cases, ◌∙◌,
}
use homelab_inventory_agent.Exec.{map_error}
use homelab_inventory_agent.Os.{Dir, Node, file, OsError, find}
use homelab_inventory_agent.Identity.{
  Persisted, Identity, IdentityError, os, Codec, identity_name, io, file_of, persisted_of,
  persist_locked, reserved, reserve_sequence,
}
use homelab_inventory_agent.Identity.Persist.{Written, replace_file-Written}

-- What encoding/json promises of an identity: it is read back, also behind a newline.
abbrev pub ReadsBack : Codec → Type 0
ReadsBack codec =
    (p : Persisted)
    → p.sequence < u64_mod
    → codec.unmarshal (codec.marshal p ++ b'\n' ∷ []) ≡ some p

abbrev pub UpTo : ℕ → List ℕ → Type 0
UpTo n = All (λ k. k ≤ n)

UpTo-le : (m n : ℕ) (ks : List ℕ) → m ≤ n → UpTo m ks → UpTo n ks
UpTo-le m n [] h u = tt
UpTo-le m n (k ∷ ks) h u = (omega arith, UpTo-le m n ks h u.1)

below_next : (n : ℕ) (ks : List ℕ) → UpTo n ks → All (λ k. k < n + 1) ks
below_next n [] u = tt
below_next n (k ∷ ks) u = (omega arith, below_next n ks u.1)

-- The file holds an identity whose sequence has reached every number that was issued.
pub record OnDisk (codec : Codec) (issued : List ℕ) (nodes : List (Text × Node)) : Type 0 where
  pub body : Text
  pub stored : Persisted
  pub there : find identity_name nodes ≡ some (file body)
  pub readable : codec.unmarshal body ≡ some stored
  pub reached : UpTo stored.sequence issued
  pub fits : stored.sequence < u64_mod

pub record IsFresh (codec : Codec) (issued : List ℕ) (i : Identity) : Type 0 where
  pub on_disk : OnDisk codec issued i.dir.nodes
  pub in_memory : UpTo i.sequence issued
  pub bounded : i.sequence < u64_mod

written-OnDisk :
    (codec : Codec) (issued : List ℕ) (i : Identity) (nodes : List (Text × Node))
    → ReadsBack codec
    → i.sequence < u64_mod
    → UpTo i.sequence issued
    → find identity_name nodes ≡ some (file (file_of codec i))
    → OnDisk codec issued nodes
unfolding file_of persisted_of
written-OnDisk codec issued i nodes back fits up h = record {
  body = file_of codec i;
  stored = persisted_of codec i;
  there = h;
  readable = back (persisted_of codec i) fits;
  reached = up;
  fits = fits;
}

moved-OnDisk :
    (codec : Codec) (issued : List ℕ) (nodes nodes' : List (Text × Node))
    → find identity_name nodes' ≡ find identity_name nodes
    → OnDisk codec issued nodes
    → OnDisk codec issued nodes'
moved-OnDisk codec issued nodes nodes' e h = record {
  body = h.body;
  stored = h.stored;
  there = e ∙ h.there;
  readable = h.readable;
  reached = h.reached;
  fits = h.fits;
}

-- A reservation that works issues a number above all that were issued before; one that fails issues
-- none. Either way the identity is fresh again.
abbrev pub Issues : Codec → List ℕ → Result IdentityError ℕ × Identity → Type 0
Issues codec issued (ok n, i) = All (λ k. k < n) issued × IsFresh codec (n ∷ issued) i
Issues codec issued (err e, i) = IsFresh codec issued i

persisted-Issues :
    (codec : Codec) (issued : List ℕ) (i : Identity) (x : Result OsError (Unit {0}) × Dir)
    → ReadsBack codec
    → IsFresh codec issued i
    → i.sequence + 1 < u64_mod
    → Written (file_of codec (record i { sequence = i.sequence + 1 })) i.dir x
    → Issues codec issued
        (reserved codec (map_error os x.0, record i { sequence = i.sequence + 1; dir = x.1 }))
unfolding file_of persisted_of
persisted-Issues codec issued i (ok u, d) back h room w =
    let next : Identity = record i { dir = d; sequence = i.sequence + 1 } in
    let up : UpTo (i.sequence + 1) ((i.sequence + 1) ∷ issued) =
      (omega arith, UpTo-le i.sequence (i.sequence + 1) issued (omega arith) h.in_memory) in
    (
      below_next i.sequence issued h.in_memory,
      record {
        on_disk = written-OnDisk codec _ next d.nodes back room up w;
        in_memory = up;
        bounded = room;
      },
    )
persisted-Issues codec issued i (err e, d) back h room w =
    let same : i.sequence + 1 - 1 ≡ i.sequence = omega arith in
    record { on_disk = disk w; in_memory = rw same h.in_memory; bounded = omega arith }
  where
    disk :
        Written (file_of codec (record i { sequence = i.sequence + 1 })) i.dir (err e, d)
        → OnDisk codec issued d.nodes
    disk (inl new) =
        written-OnDisk codec issued (record i { sequence = i.sequence + 1 }) d.nodes back room
          (UpTo-le i.sequence (i.sequence + 1) issued (omega arith) h.in_memory) new
    disk (inr old) = moved-OnDisk codec issued i.dir.nodes d.nodes old h.on_disk

-- If the codec reads back what it wrote: whatever calls fail, a reservation keeps the identity and its
-- file at or above the issued numbers, and a number that it issues is above every number issued before.
pub reserve_sequence-Issues :
    (codec : Codec) (issued : List ℕ) (i : Identity)
    → ReadsBack codec
    → IsFresh codec issued i
    → Issues codec issued (reserve_sequence codec i)
unfolding reserve_sequence persist_locked io
reserve_sequence-Issues codec issued i back h = elim (Bool-cases (i.device_id == 0)) [
  | inl unbound ↦ rw unbound h
  | inr bound ↦ rw bound (elim (Bool-cases (i.sequence == u64_mod - 1)) [
    | inl full ↦ rw full h
    | inr room ↦
        rw room
          (persisted-Issues codec issued i _ back h (ground arith) (replace_file-Written _ i.dir))
  ])
]
