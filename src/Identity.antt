-- ===== src/Identity.antt =====
-- internal/identity/identity.go: the device's key, its id and the sequence of signed requests, in
-- memory and in identity.json. JSON, base64 and key generation are parameters. The file's mode is not
-- modelled: a wrong mode is a failing Stat.
pub mod Persist
pub mod Sequence
pub mod Life
use homelab_inventory_agent.Prelude.{
  ℕ, suc, ◌+◌, ◌-◌, ◌^◌, ltb, ◌==◌, ◌&&◌, ◌||◌, not, u64_mod, max_safe, List, [], ◌∷◌, ◌++◌, Text,
  codes, length, Bool, true, false, Option, none, some, Result, ok, err, ℤ, equals, if◌then◌else◌,
}
use homelab_inventory_agent.Exec.{Exec, pure, raise, get, put, check, map_error, zoom, ◌>>=◌, ◌>>◌}
use homelab_inventory_agent.Os.{Dir, OsError, not_exist, Io, read_file, stat, plain}
use homelab_inventory_agent.Os.Atomic.{atomic_write}

abbrev pub state_version : ℕ
state_version = 1

pub record Persisted : Type 0 where
  pub version : ℤ
  pub private_key : Text
  pub device_id : ℕ
  pub sequence : ℕ

pub record Identity : Type 0 where
  pub dir : Dir
  pub private_key : Text
  pub device_id : ℕ
  pub sequence : ℕ

pub data IdentityError : Type 0 where
  decode_failed file_invalid device_id_invalid wrong_mode : IdentityError
  unsafe_device_id bound_to_another not_activated sequence_exhausted : IdentityError
  os : OsError → IdentityError

-- encoding/json of `persisted`, and base64.StdEncoding.
pub record Codec : Type 0 where
  pub marshal : Persisted → Text
  pub unmarshal : Text → Option Persisted
  pub encode_key : Text → Text
  pub decode_key : Text → Option Text

abbrev pub identity_name : Text
identity_name = codes "identity.json"

abbrev pub temp_prefix : Text
temp_prefix = codes ".identity-"

abbrev pub M : Type 0 → Type 0
M = Exec Identity IdentityError

unfoldable pub io : {A : Type 0} → Io A → M A
unfolding zoom
io = zoom (λ i. i.dir) (λ d i. record i { dir = d }) os

-- MkdirAll, the atomic write, and the last Chmod, which runs after the file is in place.
unfoldable pub replace_file : Text → Io (Unit {0})
replace_file body = do plain; atomic_write temp_prefix identity_name body; plain

module _ (codec : Codec) where
  unfoldable pub persisted_of : Identity → Persisted
  persisted_of i = record {
    version = ℤ.pos state_version;
    private_key = codec.encode_key i.private_key;
    device_id = i.device_id;
    sequence = i.sequence;
  }

  unfoldable pub file_of : Identity → Text
  file_of i = codec.marshal (persisted_of i) ++ b'\n' ∷ []

  unfoldable pub persist_locked : M (Unit {0})
  persist_locked i = io (replace_file (file_of i)) i

  unfoldable pub activate : ℕ → M (Unit {0})
  activate device = do
    check (if device == 0 || ltb max_safe device then some unsafe_device_id else none)
    i ← get
    check (
        if not (i.device_id == 0) && not (i.device_id == device)
        then some bound_to_another
        else none)
    put (record i { device_id = device })
    persist_locked

  -- After persistLocked: the number, or the error and the number taken back.
  abbrev pub reserved :
      Result IdentityError (Unit {0}) × Identity → Result IdentityError ℕ × Identity
  reserved (ok u, i) = (ok i.sequence, i)
  reserved (err e, i) = (err e, record i { sequence = i.sequence - 1 })

  unfoldable pub reserve_sequence : M ℕ
  reserve_sequence i =
      if i.device_id == 0
      then (err not_activated, i)
      else if i.sequence == u64_mod - 1
      then (err sequence_exhausted, i)
      else reserved (persist_locked (record i { sequence = i.sequence + 1 }))

  abbrev valid_file : Persisted → Option Text → Option IdentityError
  valid_file p none = some file_invalid
  valid_file p (some key) =
      if not (equals p.version state_version) || not (length key == 64)
      then some file_invalid
      else if ltb max_safe p.device_id
      then some device_id_invalid
      else none

  abbrev loaded : Persisted → Option Text → Dir → Identity
  loaded p none d = record {
    dir = d;
    private_key = [];
    device_id = p.device_id;
    sequence = p.sequence;
  }
  loaded p (some key) d = record {
    dir = d;
    private_key = key;
    device_id = p.device_id;
    sequence = p.sequence;
  }

  -- os.Stat of the file, whose mode must be 0600.
  abbrev mode_checked :
      Persisted
      → Option Text
      → Result OsError (Unit {0}) × Dir
      → Result IdentityError Identity × Dir
  mode_checked p key (ok u, d) = (ok (loaded p key d), d)
  mode_checked p key (err e, d) = (err wrong_mode, d)

  abbrev checked :
      Option IdentityError → Persisted → Option Text → Dir → Result IdentityError Identity × Dir
  checked (some e) p key d = (err e, d)
  checked none p key d = mode_checked p key (plain d)

  abbrev decoded : Option Persisted → Dir → Result IdentityError Identity × Dir
  decoded none d = (err decode_failed, d)
  decoded (some p) d =
      checked (valid_file p (codec.decode_key p.private_key)) p (codec.decode_key p.private_key) d

  abbrev created : Result IdentityError (Unit {0}) × Identity → Result IdentityError Identity × Dir
  created (ok u, i) = (ok i, i.dir)
  created (err e, i) = (err e, i.dir)

  abbrev opened : Text → Result OsError Text × Dir → Result IdentityError Identity × Dir
  opened key (ok body, d) = decoded (codec.unmarshal body) d
  opened key (err not_exist, d) =
      created (persist_locked (record { dir = d; private_key = key; device_id = 0; sequence = 0 }))
  opened key (err e, d) = (err (os e), d)

  -- LoadOrCreate, with the key that GenerateKey gives where there is no file.
  unfoldable pub load_or_create : Text → Dir → Result IdentityError Identity × Dir
  load_or_create key d = opened key (read_file identity_name d)
