-- ===== src/Examples/Updates.antt =====
-- An update at a concrete host and release endpoint.
use homelab_inventory_agent.Prelude.{
  ◌++◌, [], ◌∷◌, Text, codes, text_eq, true, false, none, some, ok, pos, ◌≡◌, ◌≢◌, refl, arith,
}
use homelab_inventory_agent.Os.{file, find}
use homelab_inventory_agent.Config.{Url}
use homelab_inventory_agent.Update.Machine.{Machine, Web}
use homelab_inventory_agent.Examples.Configs.{paths, config}
use homelab_inventory_agent.Update.Platform.{Platform, systemd_platform, directory_of}
use homelab_inventory_agent.Update.Platform.{wait_for_sustained_health, rounds_of}
use homelab_inventory_agent.Update.Platform.Health.{
  sustained, working, wait_for_sustained_health-sustained,
}
use homelab_inventory_agent.Update.Release.{
  Libraries, ReleaseClient, Asset, current, manifest, download, same_origin,
}
use homelab_inventory_agent.Update.Release.Origin.{KeepsOrigin, FromOrigin, requests-FromOrigin}
use homelab_inventory_agent.Update.Run.{Options, lock_of, run}
use homelab_inventory_agent.Update.Run.Rollback.{PathsApart}
use homelab_inventory_agent.Update.Run.Finished.{Finished, run-Finished}
use homelab_inventory_agent.Exec.Ensures.{WhenOk}
use homelab_inventory_agent.Update.Release.Assets.{Acceptable, manifest-Acceptable}

abbrev release_url : Url
release_url = record {
  scheme = codes "https";
  host = codes "inventory";
  hostname = codes "inventory";
  has_user = false;
  raw_query = [];
  fragment = [];
  path = [];
}

abbrev binary_body : Text
binary_body = codes "new binary"

abbrev service_body : Text
service_body = codes "new service"

abbrev binary_asset : Asset
binary_asset = record {
  path = codes "homelab-inventory-agent-linux-amd64";
  sha256 = binary_body;
  bytes = pos 10;
}

abbrev service_asset : Asset
service_asset = record {
  path = codes "homelab-inventory-agent.service";
  sha256 = service_body;
  bytes = pos 11;
}

-- A release of version 1.1.0; a body is its own digest.
abbrev libraries : Libraries
libraries = record {
  parse_url = λ t. some release_url;
  url_text = λ u. codes "https://inventory";
  resolve_reference = λ u v. v;
  path_escape = λ t. t;
  equal_fold = text_eq;
  clean_path = λ t. t;
  decode_hex = λ t. some (codes "0123456789abcdef0123456789abcdef");
  sha256_hex = λ t. t;
  decode_current = λ t. some (record {
    version = codes "1.1.0";
    source_revision = [];
    protocol_major = pos 1;
    manifest_url = codes "/manifest";
  });
  decode_manifest = λ t. some (record {
    version = codes "1.1.0";
    source_revision = [];
    protocol_major = pos 1;
    assets = binary_asset ∷ service_asset ∷ [];
  });
}

abbrev client : ReleaseClient
client = record { origin = release_url; prior_redirect = none }

abbrev endpoint : Web
endpoint = record {
  answers =
      some (record { hops = []; status_code = 200; body = codes "{}" })
      ∷ some (record { hops = release_url ∷ []; status_code = 200; body = codes "{}" })
      ∷ some (record { hops = []; status_code = 200; body = binary_body })
      ∷ some (record { hops = []; status_code = 200; body = service_body })
      ∷ [];
  visited = [];
}

same_url : same_origin libraries release_url release_url ≡ true
unfolding same_origin text_eq
same_url = refl

release_url-same :
    (u : Url) → some release_url ≡ some u → same_origin libraries release_url u ≡ true
release_url-same u e = ground (arith, e, same_url)

release_url-KeepsOrigin : KeepsOrigin libraries release_url
release_url-KeepsOrigin = record {
  own = λ u e. release_url-same u e;
  resolved = λ u v h e. release_url-same v e;
}

requests-FromOrigin_example :
    FromOrigin libraries client (current libraries client endpoint).1.visited
    × FromOrigin libraries client
        (manifest libraries client (codes "1.1.0") (codes "/manifest") endpoint).1.visited
    × FromOrigin libraries client
        (download libraries client (codes "1.1.0") binary_asset endpoint).1.visited
requests-FromOrigin_example =
    requests-FromOrigin libraries client (codes "1.1.0") (codes "/manifest") binary_asset endpoint
      release_url-KeepsOrigin tt

manifest-Acceptable_example :
    WhenOk
      (Acceptable libraries (codes "1.1.0"))
      (manifest libraries client (codes "1.1.0") (codes "/manifest") endpoint).0
manifest-Acceptable_example =
    manifest-Acceptable libraries client (codes "1.1.0") (codes "/manifest") endpoint

abbrev amd64 : Platform
amd64 = systemd_platform (codes "amd64")

abbrev options : Options
options = record {
  config_path = codes "/etc/agent.json";
  current_version = codes "1.0.0";
  requested = [];
  check_only = false;
  prior_redirect = none;
  is_root = true;
  platform = ok amd64;
  lock_path = [];
  health_checks = pos 0;
  health_interval = pos 0;
}

amd64-PathsApart : PathsApart amd64
unfolding directory_of
amd64-PathsApart = record {
  apart = λ e. ground (arith, e);
  binary_temp = λ t e. ground (arith, e);
  service_temp = λ t e. ground (arith, e);
  binary_crossed = λ t e. ground (arith, e);
  service_crossed = λ t e. ground (arith, e);
}

abbrev machine : Machine
machine = record {
  files = record {
    nodes =
        (codes "/etc/agent.json", file (codes "{}"))
        ∷ (amd64.binary_path, file (codes "old binary"))
        ∷ (amd64.service_path, file (codes "old service"))
        ∷ [];
    outcomes = [];
  };
  web = endpoint;
  outcomes = [];
  events = [];
}

options-lock :
    (path : Text)
    → codes "/usr/local/sbin/.homelab-inventory-agent-update.lock" ≢ path
    → lock_of options amd64 ≢ path
unfolding directory_of
options-lock path h = h

run-Finished_example :
    Finished libraries amd64
      (codes "old binary")
      (codes "old service")
      machine.web.answers
      (run libraries paths (λ t. some config) options machine)
unfolding find text_eq
run-Finished_example =
    run-Finished libraries paths (λ t. some config) options amd64 (codes "old binary")
      (codes "old service") machine refl amd64-PathsApart (options-lock _ (λ e. ground (arith, e)))
      (options-lock _ (λ e. ground (arith, e))) (refl, refl)

wait_for_sustained_health-sustained_example :
    wait_for_sustained_health
      (codes "rc-service" ∷ codes "status" ∷ [])
      (pos 3)
      true
      (working machine.files endpoint [])
    ≡ (
      ok tt,
      working machine.files endpoint
          (sustained (rounds_of (pos 3)) true (codes "rc-service" ∷ codes "status" ∷ []) ++ []),
    )
wait_for_sustained_health-sustained_example =
    wait_for_sustained_health-sustained (pos 3) true (codes "rc-service") (codes "status" ∷ [])
      machine.files endpoint []
