-- ===== src/Update/Machine.antt =====
-- What an update works on: the file system by absolute path, the release endpoint and the commands
-- that it runs. Answers and the outcomes of commands are lists that the environment chose.
use homelab_inventory_agent.Prelude.{ℕ, List, Text, Option, Result, ok}
use homelab_inventory_agent.Exec.{Exec, zoom, map_error}
use homelab_inventory_agent.Os.{Dir, Io, OsError, Outcome}
use homelab_inventory_agent.Config.{Url, ConfigError}
use homelab_inventory_agent.Update.Version.{VersionError}

-- An answer of the release endpoint, behind the redirects that it asks for.
pub record Answer : Type 0 where
  pub hops : List Url
  pub status_code : ℕ
  pub body : Text

pub record Web : Type 0 where
  pub answers : List (Option Answer)
  pub visited : List Url

pub data Event : Type 0 where
  command : List Text → Event
  wait : Event

-- `outcomes` of commands, of their output, and of waiting, which a cancelled context ends. `events`
-- holds what was done, the newest first.
pub record Machine : Type 0 where
  pub files : Dir
  pub web : Web
  pub outcomes : List Outcome
  pub events : List Event

pub data ReleaseError : Type 0 where
  endpoint_invalid url_invalid origin_crossed too_many_redirects unreachable : ReleaseError
  status_failed response_too_large decode_failed descriptor_invalid : ReleaseError
  manifest_incompatible asset_invalid digest_invalid asset_duplicated : ReleaseError
  size_mismatch digest_mismatch redirect_refused : ReleaseError
  version_invalid : VersionError → ReleaseError

pub data UpdateError : Type 0 where
  not_privileged current_invalid unsupported_platform already_running : UpdateError
  lock_failed release_unsupported snapshot_failed not_regular command_failed : UpdateError
  cancelled version_unverified : UpdateError
  config_invalid : ConfigError → UpdateError
  release : ReleaseError → UpdateError
  versions : VersionError → UpdateError
  os : OsError → UpdateError
  stop_failed binary_failed service_failed unhealthy : UpdateError → UpdateError
  rollback_incomplete not_restored : UpdateError → UpdateError

abbrev pub W : Type 0 → Type 0
W = Exec Web ReleaseError

abbrev pub U : Type 0 → Type 0
U = Exec Machine UpdateError

unfoldable pub on_files : {A : Type 0} → Io A → U A
on_files = zoom (λ m. m.files) (λ d m. record m { files = d }) os

unfoldable pub on_web : {A : Type 0} → W A → U A
on_web = zoom (λ m. m.web) (λ w m. record m { web = w }) release

-- The error that a caller sees instead.
unfoldable pub wrapped : {A : Type 0} → (UpdateError → UpdateError) → U A → U A
wrapped f m s = let (r, t) = m s in (map_error f r, t)

-- What is tried, and gone past if it fails.
unfoldable pub attempt : {A : Type 0} → U A → U (Result UpdateError A)
attempt m s = let (r, t) = m s in (ok r, t)
