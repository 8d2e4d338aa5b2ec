-- ===== src/Examples/Configs.antt =====
-- A configuration with two mounts.
use homelab_inventory_agent.Prelude.{[], ◌∷◌, codes, false, some}
use homelab_inventory_agent.Config.{Config, Paths, validate}
use homelab_inventory_agent.Config.Mounts.{Accepts, validate-Accepts}

abbrev pub paths : Paths
paths = record {
  parse_url = λ t. some (record {
    scheme = codes "https";
    host = codes "inventory";
    hostname = codes "inventory";
    has_user = false;
    raw_query = [];
    fragment = [];
    path = [];
  });
  url_text = λ u. codes "https://inventory";
  clean = λ t. t;
}

abbrev pub config : Config
config = record {
  endpoint = codes "https://inventory/";
  host = record { type = codes "nas"; id = 3 };
  state_directory = codes "/var/lib/agent";
  filesystems = codes "/data" ∷ codes "/backup" ∷ [];
  storage_health = record { smart_devices = codes "/dev/sda" ∷ [] };
  containers = record { mode = []; runtime = []; endpoint = [] };
}

validate-Accepts_example : Accepts paths config (validate paths config)
validate-Accepts_example = validate-Accepts paths config
