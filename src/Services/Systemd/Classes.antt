-- ===== src/Services/Systemd/Classes.antt =====
-- internal/collectors/services/systemd.go: where a unit comes from, by its path and the package that
-- owns it.
pub mod Known
use homelab_inventory_agent.Prelude.{
  ℕ, ◌==◌, ◌&&◌, ◌||◌, not, List, [], ◌∷◌, ◌++◌, Text, codes, text_eq, trim_space, strip_prefix,
  strip_suffix, is_empty, any, map, Bool, true, false, Option, none, some, if◌then◌else◌,
}
use homelab_inventory_agent.Exec.{pure, ◌>>=◌, ◌>>◌}
use homelab_inventory_agent.Config.{is_one_of}
use homelab_inventory_agent.Assoc
use homelab_inventory_agent.Update.Version.{split}
use homelab_inventory_agent.Services.{Reply, Collecting, TextLibrary, run_command, is_under}
use homelab_inventory_agent.Services.Systemd.Properties.{UnitProperties, property}

abbrev Classes : Type 0
Classes = List (Text × Text)

abbrev or_whole : Text → Option Text → Text
or_whole s none = s
or_whole s (some t) = t

-- strings.TrimSuffix(strings.TrimSpace(unit["Id"]), ".service")
unfoldable pub unit_name : UnitProperties → Text
unit_name unit =
    let id = trim_space (property (codes "Id") unit) in
    or_whole id (strip_suffix (codes ".service") id)

unfoldable pub local_systemd_unit : Text → Bool
local_systemd_unit clean =
    is_under (codes "/etc/systemd/system") clean
    || is_under (codes "/usr/local/lib/systemd/system") clean
    || is_under (codes "/opt") clean

unfoldable pub packaged_systemd_unit : Text → Bool
packaged_systemd_unit clean =
    is_under (codes "/lib/systemd/system") clean || is_under (codes "/usr/lib/systemd/system") clean

-- The text before the last colon.
abbrev before_colon : ℕ → Option Text → Option Text
before_colon c none = if c == b':' then some [] else none
before_colon c (some t) = some (c ∷ t)

unfoldable pub before_last_colon : Text → Option Text
before_last_colon [] = none
before_last_colon (c ∷ s) = before_colon c (before_last_colon s)

abbrev package_of : Text → Option Text → Text
package_of value none = value
package_of value (some []) = value
package_of value (some (c ∷ s)) = c ∷ s

unfoldable pub debian_package_name : Text → Text
debian_package_name value = package_of (trim_space value) (before_last_colon (trim_space value))

abbrev cut_more : ℕ → Option (Text × Text) → Option (Text × Text)
cut_more c none = none
cut_more c (some (before, after)) = some (c ∷ before, after)

abbrev cut_here : Option Text → Option (Text × Text) → Option (Text × Text)
cut_here none rest = rest
cut_here (some after) rest = some ([], after)

-- strings.Cut
unfoldable pub cut_at : Text → Text → Option (Text × Text)
cut_at separator [] = cut_here (strip_prefix separator []) none
cut_at separator (c ∷ s) =
    let rest = cut_at separator s in cut_here (strip_prefix separator (c ∷ s)) (cut_more c rest)

unfoldable pub manual_packages : List Text → List Text
manual_packages [] = []
manual_packages (line ∷ lines) =
    let rest = manual_packages lines in
    if is_empty (trim_space line) then rest else debian_package_name (trim_space line) ∷ rest

abbrev or_none : Option (List Text) → List Text
or_none none = []
or_none (some owners) = owners

unfoldable pub add_owners : Text → List Text → List (Text × List Text) → List (Text × List Text)
add_owners path [] owners = owners
add_owners path (name ∷ names) owners =
    let package_name = debian_package_name name in
    add_owners path names (
      if is_empty package_name
      then owners
      else Assoc.set path (or_none (Assoc.get owners path) ++ (package_name ∷ [])) owners)

module _ (lib : TextLibrary) where
  unfoldable pub unit_path : UnitProperties → Text
  unit_path unit = lib.clean (trim_space (property (codes "FragmentPath") unit))

  abbrev path_class : Text → Text
  path_class path =
      if local_systemd_unit (lib.clean path) then codes "user-installed" else codes "unknown"

  -- The classes by the paths alone, and the paths that a package may own, in order.
  unfoldable pub classify_paths : List UnitProperties → Classes → Classes
  classify_paths [] classes = classes
  classify_paths (unit ∷ units) classes = classify_paths units (
      if is_empty (unit_name unit)
      then classes
      else Assoc.set (unit_name unit) (path_class (unit_path unit)) classes)

  unfoldable pub packaged_paths : List UnitProperties → List Text
  packaged_paths [] = []
  packaged_paths (unit ∷ units) =
      let path = unit_path unit in
      let rest = packaged_paths units in
      if not (is_empty (unit_name unit))
        && not (local_systemd_unit (lib.clean path))
        && packaged_systemd_unit (lib.clean path)
      then path ∷ rest
      else rest

  abbrev add_line : Option (Text × Text) → List (Text × List Text) → List (Text × List Text)
  add_line none owners = owners
  add_line (some (names, path)) owners =
      if is_empty (trim_space path)
      then owners
      else add_owners (lib.clean (trim_space path)) (split b',' names) owners

  unfoldable pub path_owners : List Text → List (Text × List Text) → List (Text × List Text)
  path_owners [] owners = owners
  path_owners (line ∷ lines) owners = path_owners lines (add_line (cut_at (codes ": ") line) owners)

  -- The classes of the units whose paths have an owner.
  unfoldable pub classify_owned :
      List Text → List (Text × List Text) → List UnitProperties → Classes → Classes
  classify_owned manual owners [] classes = classes
  classify_owned manual owners (unit ∷ units) classes =
      let path = unit_path unit in
      let owned_by = or_none (Assoc.get owners path) in
      classify_owned manual owners units (
        if not (packaged_systemd_unit (lib.clean path)) || is_empty owned_by
        then classes
        else Assoc.set (unit_name unit)
            (if any (λ owner. is_one_of owner manual) owned_by
              then codes "user-installed"
              else codes "system")
            classes)

  abbrev with_owners : List UnitProperties → Classes → List Text → Reply → Collecting Classes
  with_owners units classes manual reply = pure (
      if reply.failed
      then classes
      else classify_owned manual (path_owners (split b'\n' reply.output) []) units classes)

  abbrev ask_owners : List UnitProperties → Classes → Reply → Collecting Classes
  ask_owners units classes reply =
      if reply.failed
      then pure classes
      else run_command (codes "/usr/bin/dpkg-query" ∷ codes "--search" ∷ packaged_paths units)
        >>= with_owners units classes (manual_packages (split b'\n' reply.output))

  unfoldable pub classify_systemd_units : List UnitProperties → Collecting Classes
  classify_systemd_units units =
      if is_empty (packaged_paths units)
      then pure (classify_paths units [])
      else run_command (codes "/usr/bin/apt-mark" ∷ codes "showmanual" ∷ [])
        >>= ask_owners units (classify_paths units [])
