-- ===== src/Services/Systemd/Properties.antt =====
-- internal/collectors/services/systemd.go: the properties that `systemctl show` prints, a blank line
-- between two units.
pub mod RoundTrip
use homelab_inventory_agent.Prelude.{
  List, [], ◌∷◌, Text, codes, Bool, is_empty, Option, none, some, if◌then◌else◌,
}
use homelab_inventory_agent.Assoc
use homelab_inventory_agent.Update.Version.{cut}
use homelab_inventory_agent.Services.{unix_lines}

-- The properties of a unit.
abbrev pub UnitProperties : Type 0
UnitProperties = List (Text × Text)

unfoldable pub add_property : Text × Option Text → UnitProperties → UnitProperties
add_property (key, none) current = current
add_property (key, some value) current =
    if is_empty key then current else Assoc.set key value current

abbrev pub flush : UnitProperties → List UnitProperties → List UnitProperties
flush current rest = if is_empty current then rest else current ∷ rest

unfoldable pub parse_lines : UnitProperties → List Text → List UnitProperties
parse_lines current [] = flush current []
parse_lines current (line ∷ lines) =
    let rest =
      parse_lines (if is_empty line then [] else add_property (cut b'=' line) current) lines in
    if is_empty line then flush current rest else rest

unfoldable pub parse_systemd_properties : Text → List UnitProperties
parse_systemd_properties body = parse_lines [] (unix_lines body)

-- `unit[name]`, "" where it is missing.
abbrev pub or_empty : Option Text → Text
or_empty none = []
or_empty (some t) = t

unfoldable pub property : Text → UnitProperties → Text
property name unit = or_empty (Assoc.get unit name)
