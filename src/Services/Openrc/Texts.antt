-- ===== src/Services/Openrc/Texts.antt =====
-- internal/collectors/services/openrc.go: what is read from scripts, from apk and from its world file.
use homelab_inventory_agent.Prelude.{
  ℕ, ◌==◌, ◌&&◌, ◌||◌, leb, not, List, [], ◌∷◌, Text, codes, trim_space, strip_prefix, is_empty,
  all, any, Bool, true, false, Option, none, some, if◌then◌else◌,
}
use homelab_inventory_agent.Config.{is_absolute}
use homelab_inventory_agent.Assoc
use homelab_inventory_agent.Update.Version.{split}
use homelab_inventory_agent.Services.{unix_lines}
use homelab_inventory_agent.Services.Systemd.{truncate}
use homelab_inventory_agent.Services.Systemd.Classes.{cut_at}

abbrev is_quote : ℕ → Bool
is_quote c = c == b'"' || c == 39

unfoldable pub trim_left_quotes : Text → Text
trim_left_quotes [] = []
trim_left_quotes (c ∷ s) = let rest = trim_left_quotes s in if is_quote c then rest else c ∷ s

unfoldable pub trim_right_quotes : Text → Text
trim_right_quotes [] = []
trim_right_quotes (c ∷ s) =
    let rest = trim_right_quotes s in if is_quote c && is_empty rest then [] else c ∷ rest

abbrev pub description_of : Option Text → Text → Text
description_of none rest = rest
description_of (some value) rest =
    truncate 512 (trim_right_quotes (trim_left_quotes (trim_space value)))

-- The first line that describes the service.
unfoldable pub find_description : List Text → Text
find_description [] = []
find_description (line ∷ lines) =
    let rest = find_description lines in
    description_of (strip_prefix (codes "description=") (trim_space line)) rest

unfoldable pub open_rc_description : Text → Text
open_rc_description body = find_description (unix_lines body)

abbrev is_digit : ℕ → Bool
is_digit c = leb b'0' c && leb c b'9'

-- -r[0-9]+
unfoldable pub is_revision : Text → Bool
is_revision (c ∷ d ∷ s) = c == b'-' && d == b'r' && not (is_empty s) && all is_digit s
is_revision _ = false

-- [^-]*(-r[0-9]+)?
unfoldable pub is_version_rest : Text → Bool
is_version_rest [] = true
is_version_rest (c ∷ s) =
    let rest = is_version_rest s in if c == b'-' then is_revision (c ∷ s) else rest

-- -[0-9][^-]*(-r[0-9]+)?
unfoldable pub is_version : Text → Bool
is_version (c ∷ d ∷ s) = c == b'-' && is_digit d && is_version_rest s
is_version _ = false

abbrev longer_prefix : ℕ → Bool → Option Text → Option Text
longer_prefix c ends (some p) = some (c ∷ p)
longer_prefix c ends none = if ends then some (c ∷ []) else none

-- ^(.+) before a version, as long as possible.
unfoldable pub package_prefix : Text → Option Text
package_prefix [] = none
package_prefix (c ∷ s) =
    let rest = package_prefix s in if c == b'\n' then none else longer_prefix c (is_version s) rest

abbrev or_value : Text → Option Text → Text
or_value value none = value
or_value value (some p) = p

unfoldable pub open_rc_package_name : Text → Text
open_rc_package_name value = or_value (trim_space value) (package_prefix (trim_space value))

module _ (clean : Text → Text) where
  abbrev add_owner : Option (Text × Text) → List (Text × Text) → List (Text × Text)
  add_owner none owners = owners
  add_owner (some (path, owner)) owners =
      if is_absolute path
      then Assoc.set (clean path) (open_rc_package_name owner) owners
      else owners

  unfoldable pub add_owner_lines : List Text → List (Text × Text) → List (Text × Text)
  add_owner_lines [] owners = owners
  add_owner_lines (line ∷ lines) owners =
      add_owner_lines lines (add_owner (cut_at (codes " is owned by ") (trim_space line)) owners)

  unfoldable pub parse_open_rc_owners : Text → List (Text × Text)
  parse_open_rc_owners body = add_owner_lines (unix_lines body) []

-- The text before the first of `=<>~`.
unfoldable pub before_constraint : Text → Text
before_constraint [] = []
before_constraint (c ∷ s) =
    let rest = before_constraint s in if any (λ d. c == d) (codes "=<>~") then [] else c ∷ rest

unfoldable pub world_names : List Text → List Text
world_names [] = []
world_names (line ∷ lines) =
    let name = before_constraint (trim_space line) in
    let rest = world_names lines in if is_empty name then rest else name ∷ rest

abbrev pub world_of : Option Text → List Text
world_of none = []
world_of (some body) = world_names (split b'\n' body)
