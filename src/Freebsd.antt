-- ===== src/Freebsd.antt =====
-- internal/collectors/freebsd/parse.go: what is read from sysctl, swapinfo, df and mount. The load
-- average, the boot time and the temperature are not modelled: strconv reads them.
pub mod SwapSums
use homelab_inventory_agent.Prelude.{
  ℕ, suc, ◌+◌, ◌*◌, ◌%◌, ◌==◌, ◌&&◌, ◌||◌, leb, ltb, not, List, [], ◌∷◌, ◌++◌, Text, codes, text_eq,
  trim_space, fields, is_empty, map, Bool, true, false, Option, none, some, Result, ok, err,
  u64_mod, Float, FloatLibrary, if◌then◌else◌,
}
use homelab_inventory_agent.Assoc
use homelab_inventory_agent.Config.{is_one_of}
use homelab_inventory_agent.Decimal
use homelab_inventory_agent.Update.Version.{cut, split}
use homelab_inventory_agent.Services.{unix_lines}
use homelab_inventory_agent.Linux.Proc.{plus64, minus64, percent_of}

pub record CpuCounters : Type 0 where
  pub user : ℕ
  pub nice : ℕ
  pub system : ℕ
  pub interrupt : ℕ
  pub idle : ℕ

unfoldable pub total : CpuCounters → ℕ
total c = plus64 (plus64 (plus64 (plus64 c.user c.nice) c.system) c.interrupt) c.idle

unfoldable pub goes_back : CpuCounters → CpuCounters → Bool
goes_back c previous =
    ltb c.user previous.user
    || ltb c.nice previous.nice
    || ltb c.system previous.system
    || ltb c.interrupt previous.interrupt
    || ltb c.idle previous.idle
    || leb (total c) (total previous)

abbrev add_value : Text × Option Text → List (Text × Text) → List (Text × Text)
add_value (key, none) values = values
add_value (key, some value) values =
    if is_empty (trim_space key)
    then values
    else Assoc.set (trim_space key) (trim_space value) values

unfoldable pub sysctl_lines : List Text → List (Text × Text) → List (Text × Text)
sysctl_lines [] values = values
sysctl_lines (line ∷ lines) values = sysctl_lines lines (add_value (cut b':' line) values)

unfoldable pub parse_sysctl : Text → List (Text × Text)
parse_sysctl body = sysctl_lines (unix_lines body) []

unfoldable pub parse_uint : Text → Option ℕ
parse_uint value = Decimal.parse_uint (trim_space value)

pub data CounterError : Type 0 where
  count_wrong counter_invalid counters_invalid : CounterError

abbrev counter_of : List (Option ℕ) → Result CounterError CpuCounters
counter_of (some a ∷ some b ∷ some c ∷ some d ∷ some e ∷ []) =
    ok (record { user = a; nice = b; system = c; interrupt = d; idle = e })
counter_of _ = err counter_invalid

abbrev has_five : List Text → Bool
has_five (a ∷ b ∷ c ∷ d ∷ e ∷ []) = true
has_five _ = false

unfoldable pub parse_counter : Text → Result CounterError CpuCounters
parse_counter value =
    if not (has_five (fields value))
    then err count_wrong
    else counter_of (map Decimal.parse_uint (fields value))

-- strings.Join of five fields, by a space
abbrev join_five : Text → Text → Text → Text → Text → Text
join_five a b c d e = a ++ (32 ∷ b ++ (32 ∷ c ++ (32 ∷ d ++ (32 ∷ e))))

abbrev put_counter :
    Result CounterError CpuCounters
    → Result CounterError (List CpuCounters)
    → Result CounterError (List CpuCounters)
put_counter (err x) rest = err x
put_counter (ok c) (ok cs) = ok (c ∷ cs)
put_counter (ok c) (err x) = err x

unfoldable pub counter_groups : List Text → Result CounterError (List CpuCounters)
counter_groups [] = ok []
counter_groups (a ∷ b ∷ c ∷ d ∷ e ∷ rest) =
    put_counter (parse_counter (join_five a b c d e)) (counter_groups rest)
counter_groups _ = err counters_invalid

abbrev in_fives : List Text → Bool
in_fives [] = true
in_fives (a ∷ b ∷ c ∷ d ∷ e ∷ rest) = in_fives rest
in_fives _ = false

unfoldable pub parse_per_cpu : Text → Result CounterError (List CpuCounters)
parse_per_cpu value =
    if is_empty (fields value) || not (in_fives (fields value))
    then err counters_invalid
    else counter_groups (fields value)

-- The rows behind the heading.
abbrev pub rows : Text → List (List Text)
rows body = behind (map fields (unix_lines body))
  where
    behind : List (List Text) → List (List Text)
    behind [] = []
    behind (heading ∷ rest) = rest

abbrev pub row_swap : Option ℕ → Option ℕ → Option (ℕ × ℕ)
row_swap none used = none
row_swap (some total) none = none
row_swap (some total) (some used) = if leb used total then some (total, used) else none

-- The total and the used kilobytes of a row.
unfoldable pub swap_of : List Text → Option (ℕ × ℕ)
swap_of (device ∷ total ∷ used ∷ available ∷ rest) = row_swap (parse_uint total) (parse_uint used)
swap_of _ = none

abbrev pub add_swap : Option (ℕ × ℕ) → ℕ × ℕ → ℕ × ℕ
add_swap none sums = sums
add_swap (some (total, used)) (totals, useds) = (plus64 totals total, plus64 useds used)

unfoldable pub swap_sums : List (List Text) → ℕ × ℕ → ℕ × ℕ
swap_sums [] sums = sums
swap_sums (row ∷ rest) sums = swap_sums rest (add_swap (swap_of row) sums)

pub record Swap : Type 0 where
  pub total_bytes : ℕ
  pub used_bytes : ℕ
  pub used_percent : Option Float

-- A file system of df, and what mount says of it.
pub record Mount : Type 0 where
  pub source : Text
  pub mount_point : Text
  pub fs_type : Text
  pub options : List Text

pub record Filesystem : Type 0 where
  pub mount_point : Text
  pub total_bytes : ℕ
  pub used_bytes : ℕ
  pub available_bytes : ℕ
  pub root : Text
  pub mount : Option Mount
  pub read_only : Bool

abbrev last_field : Text → List Text → Text
last_field field [] = field
last_field field (next ∷ rest) = last_field next rest

abbrev bytes_of : ℕ → ℕ
bytes_of kilobytes = (kilobytes * 1024) % u64_mod

abbrev sized : Text → Option ℕ → Option ℕ → Option ℕ → Option Filesystem
sized point (some total) (some used) (some available) = some (record {
  mount_point = point;
  total_bytes = bytes_of total;
  used_bytes = bytes_of used;
  available_bytes = bytes_of available;
  root = [];
  mount = none;
  read_only = false;
})
sized point _ _ _ = none

unfoldable pub filesystem_of : List Text → Option Filesystem
filesystem_of (source ∷ total ∷ used ∷ available ∷ capacity ∷ point ∷ rest) =
    sized (last_field point rest) (parse_uint total) (parse_uint used) (parse_uint available)
filesystem_of _ = none

abbrev put_filesystem : Option Filesystem → List Filesystem → List Filesystem
put_filesystem none rest = rest
put_filesystem (some f) rest = f ∷ rest

unfoldable pub df_rows : List (List Text) → List Filesystem
df_rows [] = []
df_rows (row ∷ rest) = put_filesystem (filesystem_of row) (df_rows rest)

unfoldable pub parse_df : Text → List Filesystem
parse_df body = df_rows (rows body)

abbrev add_mount : List Text → List (Text × Mount) → List (Text × Mount)
add_mount (source ∷ point ∷ fs_type ∷ options ∷ rest) mounts =
    Assoc.set point
      (record {
        source = source;
        mount_point = point;
        fs_type = fs_type;
        options = split b',' options;
      })
      mounts
add_mount _ mounts = mounts

unfoldable pub mount_lines : List Text → List (Text × Mount) → List (Text × Mount)
mount_lines [] mounts = mounts
mount_lines (line ∷ lines) mounts = mount_lines lines (add_mount (fields line) mounts)

unfoldable pub parse_mount_p : Text → List (Text × Mount)
parse_mount_p body = mount_lines (unix_lines body) []

abbrev with_mount : Filesystem → Option Mount → Filesystem
with_mount f none = f
with_mount f (some m) = record f {
  root = codes "/";
  mount = some m;
  read_only = is_one_of (codes "ro") m.options;
}

unfoldable pub merge_freebsd_mounts : List Filesystem → List (Text × Mount) → List Filesystem
merge_freebsd_mounts filesystems mounts =
    map (λ f. with_mount f (Assoc.get mounts f.mount_point)) filesystems

module _ (floats : FloatLibrary) where
  unfoldable pub percentage : CpuCounters → CpuCounters → Option Float
  percentage c previous =
      if goes_back c previous
      then none
      else some (
          percent_of floats
            (minus64 (minus64 (total c) (total previous)) (minus64 c.idle previous.idle))
            (minus64 (total c) (total previous)))

  abbrev pub swap_from : ℕ × ℕ → Swap
  swap_from (totals, useds) = record {
    total_bytes = bytes_of totals;
    used_bytes = bytes_of useds;
    used_percent = if totals == 0 then none else some (percent_of floats useds totals);
  }

  unfoldable pub parse_swap : Text → Swap
  parse_swap body = swap_from (swap_sums (rows body) (0, 0))
