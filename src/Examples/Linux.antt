-- ===== src/Examples/Linux.antt =====
-- The parsers of /proc and of swapinfo on concrete readings.
use homelab_inventory_agent.Prelude.{
  ℕ, ◌==◌, [], ◌∷◌, if◌then◌else◌, ◌≤◌, ◌<◌, ◌-◌, codes, some, Text, ◌*◌, fields, strip_space,
  trim_space, is_blank, ◌≡◌, refl, arith,
}
use homelab_inventory_agent.Exec.Ensures.{WhenOk}
use homelab_inventory_agent.Linux.Memory.{Consistent, parse_meminfo, parse_meminfo-Consistent}
use homelab_inventory_agent.Decimal
use homelab_inventory_agent.Decimal.{scan_digits}
use homelab_inventory_agent.Update.Version.{split}
use homelab_inventory_agent.Services.{unix_lines, replace_crlf}
use homelab_inventory_agent.Freebsd.{rows, swap_of, parse_uint, parse_swap}
use homelab_inventory_agent.Freebsd.SwapSums.{all_total, all_used, parse_swap-within}
use homelab_inventory_agent.Linux.Mounts.{decode_mount_field}
use homelab_inventory_agent.Linux.Mounts.Escapes.{EscapesOctal, escaped, decode_mount_field-escaped}
use homelab_inventory_agent.Linux.Proc.{CpuCounters, valid_delta, percent_of, percentage, total}
use homelab_inventory_agent.Linux.Proc.Shares.{work, whole, percentage-share}
use homelab_inventory_agent.Examples.Services.{floats}

-- Space, tab, line feed and backslash as octal numbers.
abbrev octal_byte : ℕ → Text
octal_byte c =
    if c == b' '
    then codes "\\040"
    else if c == b'\t'
    then codes "\\011"
    else if c == b'\n'
    then codes "\\012"
    else if c == b'\\'
    then codes "\\134"
    else c ∷ []

octal_byte-EscapesOctal : EscapesOctal octal_byte
octal_byte-EscapesOctal = record {
  space = refl;
  tab = refl;
  line_feed = refl;
  backslash = refl;
  plain = λ c space tab line_feed backslash hash. ground arith;
}

decode_mount_field-escaped_example :
    decode_mount_field (escaped octal_byte (codes "a \\b")) ≡ codes "a \\b"
decode_mount_field-escaped_example =
    decode_mount_field-escaped octal_byte octal_byte-EscapesOctal (codes "a \\b") (
      (λ e. ground (arith, e)),
      ((λ e. ground (arith, e)), ((λ e. ground (arith, e)), ((λ e. ground (arith, e)), tt))),
    )

abbrev first_reading : CpuCounters
first_reading = record {
  name = codes "cpu0";
  user = 100;
  nice = 0;
  system = 50;
  idle = 800;
  io_wait = 10;
  irq = 0;
  soft_irq = 5;
  steal = 0;
}

abbrev second_reading : CpuCounters
second_reading = record first_reading { user = 130; idle = 890 }

percentage-share_example :
    (percentage floats second_reading first_reading
      ≡ some (
          percent_of floats
            (work second_reading - work first_reading)
            (whole second_reading - whole first_reading)))
    × (work second_reading - work first_reading ≤ whole second_reading - whole first_reading)
    × (0 < whole second_reading - whole first_reading)
unfolding valid_delta total
percentage-share_example = percentage-share floats second_reading first_reading (omega arith) refl

parse_meminfo-Consistent_example :
    WhenOk Consistent (parse_meminfo floats (codes "MemTotal: 8000 kB\nMemAvailable: 5000 kB\n"))
parse_meminfo-Consistent_example =
    parse_meminfo-Consistent floats (codes "MemTotal: 8000 kB\nMemAvailable: 5000 kB\n")

abbrev swap_table : Text
swap_table = codes "Device 1K-blocks Used Avail Capacity\n/dev/ada0p3 2048 512 1536 25%\n"

swap_table-small : all_total (rows swap_table) < 18_014_398_509_481_984
unfolding all_total swap_of fields strip_space unix_lines split replace_crlf parse_uint trim_space
    is_blank Decimal.parse_uint scan_digits
swap_table-small = omega arith

parse_swap-within_example :
    ((parse_swap floats swap_table).total_bytes ≡ all_total (rows swap_table) * 1024)
    × ((parse_swap floats swap_table).used_bytes ≡ all_used (rows swap_table) * 1024)
    × ((parse_swap floats swap_table).used_bytes ≤ (parse_swap floats swap_table).total_bytes)
parse_swap-within_example = parse_swap-within floats swap_table swap_table-small
