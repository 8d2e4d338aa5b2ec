-- ===== src/Examples/Services.antt =====
-- The collectors of services on concrete answers.
use homelab_inventory_agent.Prelude.{
  FloatLibrary, [], ◌∷◌, Text, codes, text_eq, true, false, some, map, All, ◌≡◌, refl,
}
use homelab_inventory_agent.Exec.Ensures.{WhenOk}
use homelab_inventory_agent.Assoc
use homelab_inventory_agent.Assoc.{get}
use homelab_inventory_agent.Services.{Reply, Commands, TextLibrary}
use homelab_inventory_agent.Services.Rcd
use homelab_inventory_agent.Services.Rcd.Reported.{Reported, collect-Reported}
use homelab_inventory_agent.Services.Openrc
use homelab_inventory_agent.Services.Openrc.{Files, Entry}
use homelab_inventory_agent.Services.Openrc.Fitting.{Valid, collect-Valid}
use homelab_inventory_agent.Services.Systemd
use homelab_inventory_agent.Services.Systemd.{Systemd}
use homelab_inventory_agent.Services.Systemd.Properties.{UnitProperties, parse_systemd_properties}
use homelab_inventory_agent.Services.Systemd.Properties.RoundTrip.{
  print_units, PrintableUnit, filled, parse_systemd_properties-print_units,
}

abbrev texts : TextLibrary
texts = record { clean = λ t. t; base = λ t. codes "sshd"; to_lower = λ t. t }

abbrev sshd_unit : UnitProperties
sshd_unit =
    (codes "Id", codes "sshd.service")
    ∷ (codes "ActiveState", codes "active")
    ∷ (codes "FragmentPath", codes "/etc/systemd/system/sshd.service")
    ∷ []

abbrev enabled_reply : Reply
enabled_reply = record { failed = false; expired = false; output = codes "/etc/rc.d/sshd\n" }

abbrev stopped_reply : Reply
stopped_reply = record { failed = true; expired = false; output = codes "sshd is not running." }

abbrev rc_commands : Commands
rc_commands = record { replies = enabled_reply ∷ stopped_reply ∷ []; ran = [] }

collect-Reported_example : WhenOk Reported (Rcd.collect texts rc_commands).0
collect-Reported_example = collect-Reported texts rc_commands

abbrev pub floats : FloatLibrary
floats = record { of_integer = λ n. record { bits = n }; multiply = λ x y. x; divide = λ x y. x }

abbrev systemd : Systemd
systemd = record {
  commands = record {
    replies =
        record {
          failed = false;
          expired = false;
          output = codes "Id=sshd.service\nActiveState=active\n";
        }
        ∷ [];
    ran = [];
  };
  previous_at = 0;
  previous_cpu = [];
}

sshd_unit-PrintableUnit : PrintableUnit sshd_unit
unfolding get text_eq
sshd_unit-PrintableUnit = record {
  some_property = refl;
  lines = (
    record { key_there = refl; key_plain = refl; line_plain = refl },
    (
      record { key_there = refl; key_plain = refl; line_plain = refl },
      (record { key_there = refl; key_plain = refl; line_plain = refl }, tt),
    ),
  );
  one_each = (refl, (refl, (refl, tt)));
}

parse_systemd_properties-print_units_example :
    (parse_systemd_properties (print_units (sshd_unit ∷ []))
      ≡ map (λ unit. filled unit []) (sshd_unit ∷ []))
    × All
        (λ unit. (key : Text) → Assoc.get (filled unit []) key ≡ Assoc.get unit key)
        (sshd_unit ∷ [])
parse_systemd_properties-print_units_example =
    parse_systemd_properties-print_units (sshd_unit ∷ []) (sshd_unit-PrintableUnit, tt)

abbrev init_files : Files
init_files = record {
  read_dir =
      λ path. some (record { name = codes "sshd"; is_dir = false; info_is_dir = some false } ∷ []);
  read_file = λ path. some (codes "description=\"OpenSSH\"\n");
  lstat = λ path. true;
  stat = λ path. true;
  join = λ parts. codes "/etc/init.d/sshd";
  clean = λ t. t;
}

collect-Valid_example : WhenOk Valid (Openrc.collect init_files [] rc_commands).0
collect-Valid_example = collect-Valid init_files [] rc_commands
