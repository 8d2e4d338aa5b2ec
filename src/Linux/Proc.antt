-- ===== src/Linux/Proc.antt =====
-- internal/collectors/linux/proc.go: the counters of /proc/stat and what is computed of two readings.
pub mod Shares
use homelab_inventory_agent.Prelude.{
  ℕ, ◌+◌, ◌-◌, ◌%◌, ◌^◌, ◌&&◌, ltb, leb, not, List, [], ◌∷◌, Text, codes, fields, is_empty, length,
  Bool, true, false, Option, none, some, Result, ok, err, u64_mod, Float, FloatLibrary,
  if◌then◌else◌,
}
use homelab_inventory_agent.Decimal.{parse_uint}
use homelab_inventory_agent.Update.Version.{split}
use homelab_inventory_agent.Services.{has_prefix}

pub record CpuCounters : Type 0 where
  pub name : Text
  pub user : ℕ
  pub nice : ℕ
  pub system : ℕ
  pub idle : ℕ
  pub io_wait : ℕ
  pub irq : ℕ
  pub soft_irq : ℕ
  pub steal : ℕ

-- a + b and a - b of uint64
abbrev pub plus64 : ℕ → ℕ → ℕ
plus64 a b = (a + b) % u64_mod

abbrev pub minus64 : ℕ → ℕ → ℕ
minus64 a b = ((a + u64_mod) - b) % u64_mod

unfoldable pub total : CpuCounters → ℕ
total c =
    plus64
      (plus64
        (plus64 (plus64 (plus64 (plus64 (plus64 c.user c.nice) c.system) c.idle) c.io_wait) c.irq)
        c.soft_irq)
      c.steal

unfoldable pub idle_time : CpuCounters → ℕ
idle_time c = plus64 c.idle c.io_wait

unfoldable pub valid_delta : CpuCounters → CpuCounters → Bool
valid_delta c previous =
    leb previous.user c.user
    && leb previous.nice c.nice
    && leb previous.system c.system
    && leb previous.idle c.idle
    && leb previous.io_wait c.io_wait
    && leb previous.irq c.irq
    && leb previous.soft_irq c.soft_irq
    && leb previous.steal c.steal
    && ltb (total previous) (total c)

pub data CounterError : Type 0 where
  counter_invalid line_too_long no_counters : CounterError

abbrev put_value : Option ℕ → Option (List ℕ) → Option (List ℕ)
put_value none rest = none
put_value (some n) none = none
put_value (some n) (some ns) = some (n ∷ ns)

unfoldable pub parse_uints : List Text → Option (List ℕ)
parse_uints [] = some []
parse_uints (t ∷ ts) = put_value (parse_uint t) (parse_uints ts)

abbrev counters_of : Text → Option (List ℕ) → Result CounterError CpuCounters
counters_of name (some (a ∷ b ∷ c ∷ d ∷ e ∷ f ∷ g ∷ h ∷ [])) = ok (record {
  name = name;
  user = a;
  nice = b;
  system = c;
  idle = d;
  io_wait = e;
  irq = f;
  soft_irq = g;
  steal = h;
})
counters_of name _ = err counter_invalid

-- The counters of a line, if it is one of a CPU with nine fields at least.
unfoldable pub line_counters : List Text → Option (Result CounterError CpuCounters)
line_counters (name ∷ a ∷ b ∷ c ∷ d ∷ e ∷ f ∷ g ∷ h ∷ rest) =
    if has_prefix (codes "cpu") name
    then some (counters_of name (parse_uints (a ∷ b ∷ c ∷ d ∷ e ∷ f ∷ g ∷ h ∷ [])))
    else none
line_counters _ = none

abbrev put_counters :
    Option (Result CounterError CpuCounters)
    → Result CounterError (List CpuCounters)
    → Result CounterError (List CpuCounters)
put_counters none rest = rest
put_counters (some (err e)) rest = err e
put_counters (some (ok c)) (ok rest) = ok (c ∷ rest)
put_counters (some (ok c)) (err e) = err e

-- bufio.Scanner gives up at a line of 65536 bytes.
unfoldable pub counter_lines : List Text → Result CounterError (List CpuCounters)
counter_lines [] = ok []
counter_lines (line ∷ lines) =
    let rest = counter_lines lines in
    if leb 65536 (length line)
    then err line_too_long
    else put_counters (line_counters (fields line)) rest

abbrev some_counters :
    Result CounterError (List CpuCounters) → Result CounterError (List CpuCounters)
some_counters (ok []) = err no_counters
some_counters (ok (c ∷ cs)) = ok (c ∷ cs)
some_counters (err e) = err e

unfoldable pub parse_cpu_counters : Text → Result CounterError (List CpuCounters)
parse_cpu_counters body = some_counters (counter_lines (split b'\n' body))

unfoldable pub total_delta : CpuCounters → CpuCounters → ℕ
total_delta c previous = minus64 (total c) (total previous)

unfoldable pub busy_delta : CpuCounters → CpuCounters → ℕ
busy_delta c previous =
    minus64 (total_delta c previous) (minus64 (idle_time c) (idle_time previous))

-- The percentages of cpuBreakdown.
pub record Breakdown : Type 0 where
  pub user_percent : Float
  pub system_percent : Float
  pub io_wait_percent : Float
  pub steal_percent : Float
  pub idle_percent : Float

module _ (floats : FloatLibrary) where
  -- float64(part) * 100 / float64(whole)
  unfoldable pub percent_of : ℕ → ℕ → Float
  percent_of part whole =
      floats.divide (floats.multiply (floats.of_integer part) (floats.of_integer 100))
        (floats.of_integer whole)

  unfoldable pub percentage : CpuCounters → CpuCounters → Option Float
  percentage c previous =
      if not (valid_delta c previous)
      then none
      else some (percent_of (busy_delta c previous) (total_delta c previous))

  abbrev plus3 : ℕ → ℕ → ℕ → ℕ
  plus3 a b c = plus64 (plus64 a b) c

  unfoldable pub cpu_breakdown : CpuCounters → CpuCounters → Option Breakdown
  cpu_breakdown c previous =
      if not (valid_delta c previous)
      then none
      else some (record {
        user_percent =
            percent_of (minus64 (plus64 c.user c.nice) (plus64 previous.user previous.nice))
              (total_delta c previous);
        system_percent =
            percent_of
              (minus64 (plus3 c.system c.irq c.soft_irq)
                (plus3 previous.system previous.irq previous.soft_irq))
              (total_delta c previous);
        io_wait_percent = percent_of (minus64 c.io_wait previous.io_wait) (total_delta c previous);
        steal_percent = percent_of (minus64 c.steal previous.steal) (total_delta c previous);
        idle_percent = percent_of (minus64 c.idle previous.idle) (total_delta c previous);
      })
