-- ===== src/Update/Release/Assets.antt =====
-- What is known of the manifests and the assets that the release client returns.
use homelab_inventory_agent.Prelude.{
  ℕ, ◌≤◌, ltb, ◌==◌, ==_refl, ◌||◌, ◌&&◌, not, List, [], ◌∷◌, ◌++◌, Text, codes, text_eq,
  text_eq→eq, strip_prefix, is_empty, length, map, All, Bool, true, false, Option, none, some, ℤ,
  equals, below, above, ◌≡◌, ◌≢◌, refl, ap, arith, then_check-none, reject_if-none, if◌then◌else◌,
}
use homelab_inventory_agent.Exec.Ensures.{
  WhenOk, Ensures, Ensures-pure, Ensures-after, Ensures-check,
}
use homelab_inventory_agent.Config.{is_one_of}
use homelab_inventory_agent.Distinct.{Fresh, behind-fresh}
use homelab_inventory_agent.Update.Machine.{Answer, Web, ReleaseError}
use homelab_inventory_agent.Update.Release.{
  Libraries, ReleaseClient, Asset, Manifest, asset_ok, is_digest, starts_with, check_assets,
  check_manifest, manifest, check_download, download, asset_invalid, digest_invalid,
  asset_duplicated,
}

-- A body with the size and the digest that the manifest gives.
abbrev pub Genuine : Libraries → Asset → Text → Type 0
Genuine lib item body =
    (equals item.bytes (length body) ≡ true) × (lib.sha256_hex body ≡ item.sha256)

not-false : (b : Bool) → not b ≡ false → b ≡ true
not-false b h = ground arith

checked-Genuine :
    (lib : Libraries) (item : Asset) (a : Answer)
    → check_download lib item a ≡ none
    → Genuine lib item a.body
unfolding check_download
checked-Genuine lib item a h =
    let (_, rest) = then_check-none _ _ h in
    let (sized, hashed) = then_check-none _ _ rest in
    (
      not-false _ (reject_if-none _ _ sized),
      text_eq→eq _ _ (not-false _ (reject_if-none _ _ hashed)),
    )

-- An asset that is downloaded without an error is the one that the manifest lists.
pub download-Genuine :
    (lib : Libraries) (client : ReleaseClient) (version : Text) (item : Asset)
    → Ensures {S = Web} {E = ReleaseError} (Genuine lib item) (download lib client version item)
unfolding download
download-Genuine lib client version item = Ensures-after _ _ _ (λ u.
    Ensures-after _ _ _
      (λ a. Ensures-check _ _ _ (λ e. Ensures-pure _ a.body (checked-Genuine lib item a e))))

-- An asset with a path that filepath.Clean leaves alone and that is neither absolute nor upwards, a size
-- in range, and a digest of 32 bytes in hexadecimal.
pub record SoundAsset (lib : Libraries) (item : Asset) : Type 0 where
  pub path_there : item.path ≢ []
  pub path_clean : lib.clean_path item.path ≡ item.path
  pub not_upwards : (rest : Text) → item.path ≢ codes "../" ++ rest
  pub not_absolute : (rest : Text) → item.path ≢ codes "/" ++ rest
  pub sized : (n : ℕ) × (item.bytes ≡ ℤ.pos n) × (1 ≤ n) × (n ≤ 134_217_728)
  pub hashed : (digest : Text) × (lib.decode_hex item.sha256 ≡ some digest) × (length digest ≡ 32)

abbrev pub paths : List Asset → List Text
paths = map (λ item. item.path)

-- Sound assets with paths of their own, none in `seen`.
record Listed (lib : Libraries) (seen : List Text) (items : List Asset) : Type 0 where
  sound : All (SoundAsset lib) items
  unseen : All (λ t. is_one_of t seen ≡ false) (paths items)
  fresh : Fresh (paths items)

size-range :
    (bytes : ℤ)
    → (below bytes 1 || above bytes 134_217_728) ≡ false
    → (n : ℕ) × (bytes ≡ ℤ.pos n) × (1 ≤ n) × (n ≤ 134_217_728)
size-range (ℤ.pos n) h = (n, refl, ground (arith, h), ground (arith, h))
size-range (ℤ.negsuc n) h = ground (arith, h)

strip_prefix-append : (p rest : Text) → strip_prefix p (p ++ rest) ≡ some rest
unfolding strip_prefix
strip_prefix-append [] rest = refl
strip_prefix-append (c ∷ p) rest = rw ==_refl (strip_prefix-append p rest)

module _ (lib : Libraries) where
  no_prefix :
      (p t clean : Text)
      → clean ≡ t
      → starts_with lib (strip_prefix p clean) ≡ false
      → (rest : Text) → t ≢ p ++ rest
  no_prefix p t clean same h rest e =
      let found : starts_with lib (strip_prefix p clean) ≡ true =
        rw (same, e, strip_prefix-append p rest) refl in
      ground (arith, h, found)

  five_parts :
      (a b c d e : Bool)
      → (not a && b && not c && not d && not e) ≡ true
      → (a ≡ false) × (b ≡ true) × (c ≡ false) × (d ≡ false) × (e ≡ false)
  five_parts a b c d e h = ground arith

  digest_length :
      (o : Option Text)
      → is_digest lib o ≡ true
      → (digest : Text) × (o ≡ some digest) × (length digest ≡ 32)
  digest_length none h = ground (arith, h)
  digest_length (some digest) h = (digest, refl, ground (arith, h))

  ok-SoundAsset :
      (item : Asset)
      → asset_ok lib item ≡ true
      → is_digest lib (lib.decode_hex item.sha256) ≡ true
      → SoundAsset lib item
  unfolding asset_ok
  ok-SoundAsset item h digest =
      let (there, clean, upwards, absolute, size) =
        five_parts (is_empty item.path) (text_eq (lib.clean_path item.path) item.path)
          (starts_with lib (strip_prefix (codes "../") (lib.clean_path item.path)))
          (starts_with lib (strip_prefix (codes "/") (lib.clean_path item.path)))
          (below item.bytes 1 || above item.bytes 134_217_728) h in
      let same = text_eq→eq (lib.clean_path item.path) item.path clean in
      record {
        path_there = λ e. ground (arith, ap is_empty e, there);
        path_clean = same;
        not_upwards = no_prefix (codes "../") item.path (lib.clean_path item.path) same upwards;
        not_absolute = no_prefix (codes "/") item.path (lib.clean_path item.path) same absolute;
        sized = size-range item.bytes size;
        hashed = digest_length (lib.decode_hex item.sha256) digest;
      }

  one_asset :
      (a b c : Bool) (x y z : ReleaseError) (rest : Option ReleaseError)
      → (if not a then some x else if not b then some y else if c then some z else rest) ≡ none
      → (a ≡ true) × (b ≡ true) × (c ≡ false) × (rest ≡ none)
  one_asset a b c x y z rest h = ground (arith, h)

  check_assets-Listed :
      (seen : List Text) (items : List Asset)
      → check_assets lib seen items ≡ none
      → Listed lib seen items
  unfolding check_assets
  check_assets-Listed seen [] h = record { sound = tt; unseen = tt; fresh = tt }
  check_assets-Listed seen (item ∷ items) h =
      let (passed, hashed, new, rest) =
        one_asset (asset_ok lib item) (is_digest lib (lib.decode_hex item.sha256))
          (is_one_of item.path seen) asset_invalid digest_invalid asset_duplicated
          (check_assets lib (item.path ∷ seen) items) h in
      let more = check_assets-Listed (item.path ∷ seen) items rest in
      let (fresh, unseen) = behind-fresh item.path seen (paths items) more.unseen in
      record {
        sound = (ok-SoundAsset item passed hashed, more.sound);
        unseen = (new, unseen);
        fresh = (fresh, more.fresh);
      }

-- A manifest of the version, of this protocol, with 1 to 64 sound assets of different paths.
pub record Acceptable (lib : Libraries) (version : Text) (m : Manifest) : Type 0 where
  pub version_same : m.version ≡ version
  pub major : m.protocol_major ≡ ℤ.pos 1
  pub some_assets : length m.assets ≢ 0
  pub few_assets : length m.assets ≤ 64
  pub sound_assets : All (SoundAsset lib) m.assets
  pub different_paths : Fresh (paths m.assets)

four_parts :
    (a b c d : Bool)
    → (not a || not b || c || d) ≡ false
    → (a ≡ true) × (b ≡ true) × (c ≡ false) × (d ≡ false)
four_parts a b c d h = ground arith

equals-one : (x : ℤ) → equals x 1 ≡ true → x ≡ ℤ.pos 1
equals-one (ℤ.pos n) h = ap ℤ.pos (ground (arith, h))
equals-one (ℤ.negsuc n) h = ground (arith, h)

checked-Acceptable :
    (lib : Libraries) (version : Text) (m : Manifest)
    → check_manifest lib version m ≡ none
    → Acceptable lib version m
unfolding check_manifest
checked-Acceptable lib version m h =
    let (sound, listed) = then_check-none _ _ h in
    let (version_ok, major_ok, filled, small) =
      four_parts (text_eq m.version version) (equals m.protocol_major 1) (length m.assets == 0)
        (ltb 64 (length m.assets)) (reject_if-none _ _ sound) in
    record {
      version_same = text_eq→eq _ _ version_ok;
      major = equals-one m.protocol_major major_ok;
      some_assets = λ e. ground (arith, filled, e);
      few_assets = ground (arith, small);
      sound_assets = (check_assets-Listed lib [] m.assets listed).sound;
      different_paths = (check_assets-Listed lib [] m.assets listed).fresh;
    }

pub manifest-Ensures :
    (lib : Libraries) (client : ReleaseClient) (version url : Text)
    → Ensures {S = Web} {E = ReleaseError}
        (Acceptable lib version)
        (manifest lib client version url)
unfolding manifest
manifest-Ensures lib client version url = Ensures-after _ _ _ (λ u. Ensures-after _ _ _ (λ v.
    Ensures-after _ _ _ (λ a.
      Ensures-after _ _ _
        (λ m. Ensures-check _ _ _ (λ e. Ensures-pure _ m (checked-Acceptable lib version m e))))))

-- A manifest that is returned without an error is of the version that was asked for and of protocol 1;
-- it lists 1 to 64 assets with different, clean, relative paths, sizes of 1 to 134217728 bytes and
-- digests of 32 bytes.
pub manifest-Acceptable :
    (lib : Libraries) (client : ReleaseClient) (version url : Text) (web : Web)
    → WhenOk (Acceptable lib version) (manifest lib client version url web).0
manifest-Acceptable lib client version url web = (manifest-Ensures lib client version url).at web
