-- ===== src/Config.antt =====
-- internal/config/config.go: the validation of the configuration, which also normalizes it. url.Parse,
-- the text of a URL and filepath.Clean are parameters, as is the decoder of Load.
pub mod Mounts
use homelab_inventory_agent.Prelude.{
  ℕ, ◌^◌, ltb, ◌==◌, ◌&&◌, ◌||◌, not, List, [], ◌∷◌, Text, codes, text_eq, strip_prefix, is_empty,
  length, Bool, true, false, Option, none, some, Result, ok, err, if◌then◌else◌,
}
use homelab_inventory_agent.Decimal.{parse_uint}
use homelab_inventory_agent.Protocol.Types.{HostRef}
use homelab_inventory_agent.Protocol.Contract.{HostError, validate_host_ref}
use homelab_inventory_agent.Update.Version.{split}

pub record StorageHealthConfig : Type 0 where
  pub smart_devices : List Text

pub record Containers : Type 0 where
  pub mode : Text
  pub runtime : Text
  pub endpoint : Text

pub record Config : Type 0 where
  pub endpoint : Text
  pub host : HostRef
  pub state_directory : Text
  pub filesystems : List Text
  pub storage_health : StorageHealthConfig
  pub containers : Containers

pub data ConfigError : Type 0 where
  decode_failed read_failed endpoint_not_absolute endpoint_has_credentials endpoint_has_path :
      ConfigError
  state_directory_relative too_many_filesystems filesystem_not_normal : ConfigError
  filesystem_reserved too_many_devices device_not_normal device_duplicated : ConfigError
  mode_invalid runtime_invalid endpoint_not_empty proxy_url_invalid : ConfigError
  proxy_not_loopback proxy_has_path socket_not_allowed : ConfigError
  host_invalid : HostError → ConfigError

-- url.URL, as far as the validation reads it.
pub record Url : Type 0 where
  pub scheme : Text
  pub host : Text
  pub hostname : Text
  pub has_user : Bool
  pub raw_query : Text
  pub fragment : Text
  pub path : Text

pub record Paths : Type 0 where
  pub parse_url : Text → Option Url
  pub url_text : Url → Text
  pub clean : Text → Text

abbrev is_slash : ℕ → Bool
is_slash c = c == b'/'

-- strings.TrimRight(s, "/")
unfoldable pub trim_slashes : Text → Text
trim_slashes [] = []
trim_slashes (c ∷ s) =
    let rest = trim_slashes s in if is_slash c && is_empty rest then [] else c ∷ rest

unfoldable pub is_absolute : Text → Bool
is_absolute [] = false
is_absolute (c ∷ s) = is_slash c

unfoldable pub is_one_of : Text → List Text → Bool
is_one_of t [] = false
is_one_of t (u ∷ us) = text_eq t u || is_one_of t us

abbrev or_default : Text → Text → Text
or_default fallback t = if is_empty t then fallback else t

abbrev number_fits : Option ℕ → Bool
number_fits none = false
number_fits (some n) = ltb n (2 ^ 32)

-- The user's number, and podman/podman.sock behind it.
abbrev is_user_path : List Text → Bool
is_user_path (user ∷ directory ∷ socket ∷ []) =
    text_eq directory (codes "podman")
    && text_eq socket (codes "podman.sock")
    && number_fits (parse_uint user)
is_user_path _ = false

abbrev is_user_rest : Option Text → Bool
is_user_rest none = false
is_user_rest (some rest) = is_user_path (split b'/' rest)

unfoldable pub is_allowed_socket : Text → Text → Bool
is_allowed_socket runtime path =
    is_one_of path (
      codes "/var/run/docker.sock"
      ∷ codes "/run/docker.sock"
      ∷ codes "/run/podman/podman.sock"
      ∷ [])
    || (text_eq runtime (codes "podman") && is_user_rest (strip_prefix (codes "/run/user/") path))

module _ (paths : Paths) where
  abbrev endpoint_checked : Option Url → Result ConfigError Text
  endpoint_checked none = err endpoint_not_absolute
  endpoint_checked (some u) =
      if not (is_one_of u.scheme (codes "http" ∷ codes "https" ∷ [])) || is_empty u.host
      then err endpoint_not_absolute
      else if u.has_user || not (is_empty u.raw_query) || not (is_empty u.fragment)
      then err endpoint_has_credentials
      else if not (is_empty (trim_slashes u.path))
      then err endpoint_has_path
      else ok (trim_slashes (paths.url_text (record u { path = trim_slashes u.path })))

  abbrev proxy_checked : Option Url → Result ConfigError Text
  proxy_checked none = err proxy_url_invalid
  proxy_checked (some u) =
      if not (text_eq u.scheme (codes "http"))
        || is_empty u.host
        || u.has_user
        || not (is_empty u.raw_query)
        || not (is_empty u.fragment)
      then err proxy_url_invalid
      else if not (is_one_of u.hostname (codes "localhost" ∷ codes "127.0.0.1" ∷ codes "::1" ∷ []))
      then err proxy_not_loopback
      else if not (is_empty (trim_slashes u.path))
      then err proxy_has_path
      else ok (trim_slashes (paths.url_text u))

  -- The mounts in turn, with those seen so far, the state directory among them.
  unfoldable pub check_filesystems : List Text → List Text → Option ConfigError
  check_filesystems seen [] = none
  check_filesystems seen (mount ∷ more) =
      let rest = check_filesystems (mount ∷ seen) more in
      if not (is_absolute mount)
        || not (text_eq (paths.clean mount) mount)
        || ltb 4096 (length (paths.clean mount))
      then some filesystem_not_normal
      else if is_one_of (paths.clean mount) seen || text_eq (paths.clean mount) (codes "/")
      then some filesystem_reserved
      else rest

  abbrev is_device : Option Text → Bool
  is_device none = false
  is_device (some t) = true

  unfoldable pub check_devices : List Text → List Text → Option ConfigError
  check_devices seen [] = none
  check_devices seen (device ∷ more) =
      let rest = check_devices (device ∷ seen) more in
      if not (is_absolute device)
        || not (text_eq (paths.clean device) device)
        || not (is_device (strip_prefix (codes "/dev/") (paths.clean device)))
        || ltb 255 (length (paths.clean device))
      then some device_not_normal
      else if is_one_of (paths.clean device) seen
      then some device_duplicated
      else rest

  abbrev with_endpoint : Containers → Result ConfigError Text → Result ConfigError Containers
  with_endpoint c (ok endpoint) = ok (record c { endpoint = endpoint })
  with_endpoint c (err e) = err e

  abbrev check_mode : Containers → Result ConfigError Containers
  check_mode c =
      if not (is_one_of c.mode (codes "disabled" ∷ codes "proxy" ∷ codes "socket" ∷ []))
      then err mode_invalid
      else if not (is_one_of c.runtime (codes "docker" ∷ codes "podman" ∷ []))
      then err runtime_invalid
      else if text_eq c.mode (codes "disabled")
      then (if is_empty c.endpoint then ok c else err endpoint_not_empty)
      else if text_eq c.mode (codes "proxy")
      then with_endpoint c (proxy_checked (paths.parse_url c.endpoint))
      else if not (is_absolute c.endpoint)
          || not (text_eq (paths.clean c.endpoint) c.endpoint)
          || not (is_allowed_socket c.runtime (paths.clean c.endpoint))
      then err socket_not_allowed
      else ok c

  unfoldable pub validate_containers : Containers → Result ConfigError Containers
  validate_containers c = check_mode (record {
    mode = or_default (codes "disabled") c.mode;
    runtime = or_default (codes "docker") c.runtime;
    endpoint = c.endpoint;
  })

  abbrev with_containers : Config → Result ConfigError Containers → Result ConfigError Config
  with_containers c (ok containers) = ok (record c { containers = containers })
  with_containers c (err e) = err e

  abbrev unless_failed : Option ConfigError → Result ConfigError Config → Result ConfigError Config
  unless_failed none rest = rest
  unless_failed (some e) rest = err e

  abbrev check_rest : Config → Result ConfigError Text → Result ConfigError Config
  check_rest c (err e) = err e
  check_rest c (ok endpoint) =
      if not (is_absolute c.state_directory)
      then err state_directory_relative
      else if ltb 63 (length c.filesystems)
      then err too_many_filesystems
      else unless_failed (check_filesystems (c.state_directory ∷ []) c.filesystems) (
          if ltb 64 (length c.storage_health.smart_devices)
          then err too_many_devices
          else unless_failed (check_devices [] c.storage_health.smart_devices) (
              with_containers (record c { endpoint = endpoint })
                (validate_containers c.containers)))

  abbrev check_host : Config → Option HostError → Result ConfigError Config
  check_host c (some e) = err (host_invalid e)
  check_host c none = check_rest c (endpoint_checked (paths.parse_url c.endpoint))

  -- Validate
  unfoldable pub validate : Config → Result ConfigError Config
  validate c = check_host c (validate_host_ref c.host)

  abbrev validate_decoded : Option Config → Result ConfigError Config
  validate_decoded none = err decode_failed
  validate_decoded (some c) = validate c

  -- Load, of what os.ReadFile gives, `none` for an error.
  unfoldable pub load_config : (Text → Option Config) → Option Text → Result ConfigError Config
  load_config decode none = err read_failed
  load_config decode (some body) = validate_decoded (decode body)
