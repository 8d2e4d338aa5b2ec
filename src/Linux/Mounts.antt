-- ===== src/Linux/Mounts.antt =====
-- internal/collectors/linux/mounts.go: the lines of /proc/self/mountinfo. The reads of the file and of
-- statfs are not modelled.
pub mod Escapes
use homelab_inventory_agent.Prelude.{
  ℕ, zero, suc, ◌+◌, ◌==◌, ◌&&◌, ◌||◌, ltb, leb, List, [], ◌∷◌, Text, codes, text_eq, fields,
  is_empty, length, Bool, true, false, Option, none, some, if◌then◌else◌,
}
use homelab_inventory_agent.Decimal.{parse_uint}
use homelab_inventory_agent.Update.Version.{split}

pub record MountRecord : Type 0 where
  pub mount_id : ℕ
  pub parent_id : ℕ
  pub major_minor : Text
  pub root : Text
  pub mount_point : Text
  pub options : List Text
  pub optional : List Text
  pub fs_type : Text
  pub source : Text
  pub super : List Text

-- A byte that is written as a backslash and three digits: space, tab, line feed and backslash.
abbrev octal : ℕ → ℕ → ℕ → Option ℕ
octal a b c =
    if a == b'0' && b == b'4' && c == b'0'
    then some 32
    else if a == b'0' && b == b'1' && c == b'1'
    then some 9
    else if a == b'0' && b == b'1' && c == b'2'
    then some 10
    else if a == b'1' && b == b'3' && c == b'4'
    then some 92
    else none

unfoldable pub escape_of : Text → Option ℕ
escape_of (c ∷ x ∷ y ∷ z ∷ s) = if c == 92 then octal x y z else none
escape_of _ = none

-- The replacer of decodeMountField; the number is of bytes to pass over.
unfoldable pub decode_from : ℕ → Text → Text
decode_from n [] = []
decode_from (suc n) (c ∷ s) = decode_from n s
decode_from zero (c ∷ s) = elim (escape_of (c ∷ s)) [
  | none ↦ c ∷ decode_from 0 s
  | some byte ↦ byte ∷ decode_from 3 s
]

unfoldable pub decode_mount_field : Text → Text
decode_mount_field value = decode_from 0 value

unfoldable pub split_comma : Text → List Text
split_comma value = if is_empty value then [] else split b',' value

-- The fields before the first `-`, and those behind it.
abbrev before_field : Text → Option (List Text × List Text) → Option (List Text × List Text)
before_field field none = none
before_field field (some (before, after)) = some (field ∷ before, after)

unfoldable pub split_dash : List Text → Option (List Text × List Text)
split_dash [] = none
split_dash (field ∷ rest) =
    let later = split_dash rest in
    if text_eq field (codes "-") then some ([], rest) else before_field field later

abbrev mount_of : Option ℕ → Option ℕ → MountRecord → Option MountRecord
mount_of none parent m = none
mount_of (some id) none m = none
mount_of (some id) (some parent) m = some (record m { mount_id = id; parent_id = parent })

-- Six fields at least before the separator, three behind it.
abbrev record_of : Option (List Text × List Text) → Option MountRecord
record_of
      (some (
        id ∷ parent ∷ major_minor ∷ root ∷ mount_point ∷ options ∷ optional,
        fs_type ∷ source ∷ super ∷ rest,
      )) =
    mount_of (parse_uint id) (parse_uint parent) (record {
      mount_id = 0;
      parent_id = 0;
      major_minor = major_minor;
      root = decode_mount_field root;
      mount_point = decode_mount_field mount_point;
      options = split_comma options;
      optional = optional;
      fs_type = fs_type;
      source = decode_mount_field source;
      super = split_comma super;
    })
record_of _ = none

unfoldable pub parse_mount_info_line : Text → Option MountRecord
parse_mount_info_line line = record_of (split_dash (fields line))

abbrev put_mount : MountRecord → List MountRecord × Bool → List MountRecord × Bool
put_mount m (mounts, failed) = (m ∷ mounts, failed)

-- The records of the lines, as many as are left, and whether bufio.Scanner gave up at a line that its
-- buffer of a megabyte does not hold.
unfoldable pub read_mounts : ℕ → List Text → List MountRecord × Bool
read_mounts zero lines = ([], false)
read_mounts (suc n) [] = ([], false)
read_mounts (suc n) (line ∷ lines) =
    if leb 1_048_576 (length line) then ([], true) else elim (parse_mount_info_line line) [
      | none ↦ read_mounts (suc n) lines
      | some m ↦ put_mount m (read_mounts n lines)
    ]

-- readMountInfo, of what the file holds
unfoldable pub read_mount_info : Text → List MountRecord × Bool
read_mount_info body = read_mounts 256 (split b'\n' body)
