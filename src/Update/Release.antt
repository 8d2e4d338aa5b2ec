-- ===== src/Update/Release.antt =====
-- internal/agentupdate/release.go: the client of the release endpoint. URLs, JSON (with the check for
-- trailing data), SHA-256 and hexadecimal are parameters. http.Client.Do is the next answer of the
-- environment; it asks CheckRedirect before each redirect that it follows.
pub mod Origin
pub mod Assets
pub mod Served
use homelab_inventory_agent.Prelude.{
  ℕ, suc, ◌*◌, leb, ltb, ◌==◌, ◌&&◌, ◌||◌, not, List, [], ◌∷◌, ◌++◌, Text, codes, text_eq, is_empty,
  length, strip_prefix, Bool, true, false, Option, none, some, Result, ok, err, ℤ, below, above,
  equals, if◌then◌else◌, reject_if, first_failed, ◌then_check◌,
}
use homelab_inventory_agent.Exec.{Exec, pure, raise, lift, check, ◌>>=◌, ◌>>◌}
use homelab_inventory_agent.Config.{Url, trim_slashes, is_one_of}
use homelab_inventory_agent.Transport.{is_success}
use homelab_inventory_agent.Update.Version.{Version, VersionError, parse_version}
use homelab_inventory_agent.Update.Machine.{
  Answer, Web, W, ReleaseError, endpoint_invalid, url_invalid, origin_crossed, too_many_redirects,
  unreachable, status_failed, response_too_large, decode_failed, descriptor_invalid,
  manifest_incompatible, asset_invalid, digest_invalid, asset_duplicated, size_mismatch,
  digest_mismatch, redirect_refused, version_invalid,
}

abbrev pub max_metadata_bytes : ℕ
max_metadata_bytes = 512 * 1024

pub record Asset : Type 0 where
  pub path : Text
  pub sha256 : Text
  pub bytes : ℤ

pub record Manifest : Type 0 where
  pub version : Text
  pub source_revision : Text
  pub protocol_major : ℤ
  pub assets : List Asset

pub record CurrentRelease : Type 0 where
  pub version : Text
  pub source_revision : Text
  pub protocol_major : ℤ
  pub manifest_url : Text

-- Library code that the client calls.
pub record Libraries : Type 0 where
  pub parse_url : Text → Option Url
  pub url_text : Url → Text
  pub resolve_reference : Url → Url → Url
  pub path_escape : Text → Text
  pub equal_fold : Text → Text → Bool
  pub clean_path : Text → Text
  pub decode_hex : Text → Option Text
  pub sha256_hex : Text → Text
  pub decode_current : Text → Option CurrentRelease
  pub decode_manifest : Text → Option Manifest

-- releaseClient: the origin, and the redirect check of the http.Client that was passed in, if any.
pub record ReleaseClient : Type 0 where
  pub origin : Url
  pub prior_redirect : Option (Url → ℕ → Bool)

abbrev pub current_path : Text
current_path = codes "/api/agent/releases/current"

abbrev pub releases_path : Text
releases_path = codes "/api/agent/releases/"

-- A body is read up to the limit and one byte more.
abbrev pub fits_into : ℕ → ℤ → Bool
fits_into n (ℤ.pos limit) = leb n limit
fits_into n (ℤ.negsuc k) = false

abbrev pub is_size : ℤ → ℕ → Bool
is_size x n = equals x n

abbrev pub is_parsed : Result VersionError Version → Bool
is_parsed (ok v) = true
is_parsed (err e) = false

abbrev pub version_error : Result VersionError Version → Option VersionError
version_error (ok v) = none
version_error (err e) = some e

module _ (lib : Libraries) where
  unfoldable pub same_origin : Url → Url → Bool
  same_origin first second =
      lib.equal_fold first.scheme second.scheme && lib.equal_fold first.host second.host

  abbrev client_of : Option (Url → ℕ → Bool) → Option Url → Result ReleaseError ReleaseClient
  client_of prior none = err endpoint_invalid
  client_of prior (some u) =
      if is_empty u.host || not (is_one_of u.scheme (codes "http" ∷ codes "https" ∷ []))
      then err endpoint_invalid
      else ok (record { origin = u; prior_redirect = prior })

  unfoldable pub new_release_client :
      Text → Option (Url → ℕ → Bool) → Result ReleaseError ReleaseClient
  new_release_client endpoint prior = client_of prior (lib.parse_url (trim_slashes endpoint))

  abbrev prior_check : Option (Url → ℕ → Bool) → Url → ℕ → Option ReleaseError
  prior_check none u via = reject_if (leb 10 via) too_many_redirects
  prior_check (some allows) u via = reject_if (not (allows u via)) redirect_refused

  -- CheckRedirect, with the number of requests made so far.
  unfoldable pub check_redirect : ReleaseClient → Url → ℕ → Option ReleaseError
  check_redirect client u via =
      reject_if (not (same_origin client.origin u)) origin_crossed
      then_check prior_check client.prior_redirect u via

  abbrev refused_or :
      Option ReleaseError
      → List Url
      → Result ReleaseError (Unit {0}) × List Url
      → Result ReleaseError (Unit {0}) × List Url
  refused_or none seen rest = rest
  refused_or (some e) seen rest = (err e, seen)

  -- The redirects in turn, with the requests made so far and the URLs that were asked.
  unfoldable pub follow :
      ReleaseClient → ℕ → List Url → List Url → Result ReleaseError (Unit {0}) × List Url
  follow client via [] seen = (ok tt, seen)
  follow client via (hop ∷ hops) seen =
      let rest = follow client (suc via) hops (hop ∷ seen) in
      refused_or (check_redirect client hop via) seen rest

  abbrev answered :
      Answer
      → List (Option Answer)
      → Result ReleaseError (Unit {0}) × List Url
      → Result ReleaseError Answer × Web
  answered a rest (ok u, seen) = (ok a, record { answers = rest; visited = seen })
  answered a rest (err e, seen) = (err e, record { answers = rest; visited = seen })

  abbrev exchange :
      ReleaseClient → Url → List (Option Answer) → List Url → Result ReleaseError Answer × Web
  exchange client u [] seen = (err unreachable, record { answers = []; visited = u ∷ seen })
  exchange client u (none ∷ rest) seen =
      (err unreachable, record { answers = rest; visited = u ∷ seen })
  exchange client u (some a ∷ rest) seen = answered a rest (follow client 1 a.hops (u ∷ seen))

  -- client.http.Do
  unfoldable pub do_request : ReleaseClient → Url → W Answer
  do_request client u web = exchange client u web.answers web.visited

  abbrev checked_url : ReleaseClient → Option Url → Result ReleaseError Url
  checked_url client none = err url_invalid
  checked_url client (some u) =
      if same_origin client.origin (lib.resolve_reference client.origin u)
      then ok (lib.resolve_reference client.origin u)
      else err origin_crossed

  unfoldable pub resolve : ReleaseClient → Text → Result ReleaseError Url
  resolve client reference = checked_url client (lib.parse_url reference)

  abbrev parsed : Option Url → Result ReleaseError Url
  parsed none = err url_invalid
  parsed (some u) = ok u

  -- http.NewRequestWithContext, of the text of a URL.
  unfoldable pub get_request : ReleaseClient → Text → W Answer
  get_request client text = do u ← lift (parsed (lib.parse_url text)); do_request client u

  abbrev or_decode_failed : {A : Type 0} → Option A → Result ReleaseError A
  or_decode_failed none = err decode_failed
  or_decode_failed (some a) = ok a

  unfoldable pub decode_response :
      {A : Type 0} → (Text → Option A) → ℕ → Answer → Result ReleaseError A
  decode_response decode limit a =
      if not (is_success a.status_code)
      then err status_failed
      else if ltb limit (length a.body)
      then err response_too_large
      else or_decode_failed (decode a.body)

  unfoldable pub current : ReleaseClient → W CurrentRelease
  current client = do
    response ← get_request client (lib.url_text client.origin ++ current_path)
    result ← lift (decode_response lib.decode_current max_metadata_bytes response)
    check (
        reject_if
          (not (is_parsed (parse_version result.version))
            || not (equals result.protocol_major 1)
            || is_empty result.manifest_url)
          descriptor_invalid)
    resolved ← lift (resolve client result.manifest_url)
    pure result

  abbrev starts_with : Option Text → Bool
  starts_with none = false
  starts_with (some rest) = true

  unfoldable pub asset_ok : Asset → Bool
  asset_ok item =
      not (is_empty item.path)
      && text_eq (lib.clean_path item.path) item.path
      && not (starts_with (strip_prefix (codes "../") (lib.clean_path item.path)))
      && not (starts_with (strip_prefix (codes "/") (lib.clean_path item.path)))
      && not (below item.bytes 1 || above item.bytes 134_217_728)

  abbrev is_digest : Option Text → Bool
  is_digest none = false
  is_digest (some digest) = length digest == 32

  -- The assets in turn, with the paths seen so far.
  unfoldable pub check_assets : List Text → List Asset → Option ReleaseError
  check_assets seen [] = none
  check_assets seen (item ∷ items) =
      let rest = check_assets (item.path ∷ seen) items in
      if not (asset_ok item)
      then some asset_invalid
      else if not (is_digest (lib.decode_hex item.sha256))
      then some digest_invalid
      else if is_one_of item.path seen
      then some asset_duplicated
      else rest

  abbrev wrap_version : Option VersionError → Option ReleaseError
  wrap_version none = none
  wrap_version (some e) = some (version_invalid e)

  unfoldable pub manifest_reference : Text → Text → Text
  manifest_reference version manifest_url =
      if is_empty manifest_url
      then releases_path ++ (lib.path_escape version ++ codes "/manifest.json")
      else manifest_url

  unfoldable pub check_manifest : Text → Manifest → Option ReleaseError
  check_manifest version m =
      reject_if
        (not (text_eq m.version version)
          || not (equals m.protocol_major 1)
          || length m.assets == 0
          || ltb 64 (length m.assets))
        manifest_incompatible
      then_check check_assets [] m.assets

  unfoldable pub manifest : ReleaseClient → Text → Text → W Manifest
  manifest client version manifest_url = do
    check (wrap_version (version_error (parse_version version)))
    resolved ← lift (resolve client (manifest_reference version manifest_url))
    response ← get_request client (lib.url_text resolved)
    result ← lift (decode_response lib.decode_manifest max_metadata_bytes response)
    check (check_manifest version result)
    pure result

  unfoldable pub check_download : Asset → Answer → Option ReleaseError
  check_download item a =
      reject_if (not (is_success a.status_code)) status_failed
      then_check reject_if (not (is_size item.bytes (length a.body))) size_mismatch
      then_check reject_if (not (text_eq (lib.sha256_hex a.body) item.sha256)) digest_mismatch

  unfoldable pub download : ReleaseClient → Text → Asset → W Text
  download client version item = do
    resolved ←
        lift
          (resolve client (releases_path ++ (lib.path_escape version ++ (codes "/" ++ item.path))))
    response ← get_request client (lib.url_text resolved)
    check (check_download item response)
    pure response.body
