-- ===== src/Linux/Memory.antt =====
-- internal/collectors/linux/proc.go: parseMeminfo. The map of values is a record; a field that is left
-- out of the map is an option.
use homelab_inventory_agent.Prelude.{
  ℕ, ◌+◌, ◌*◌, ◌%◌, ◌≤◌, ◌==◌, ◌||◌, ||-false, leb, ltb, ltb→le, List, [], ◌∷◌, Text, codes, fields,
  strip_suffix, length, false, Option, none, some, Result, ok, err, u64_mod, Float, FloatLibrary,
  if◌then◌else◌, ◌≡◌, ◌≢◌, ◌<◌, arith, All, Bool-cases, inl, inr,
}
use homelab_inventory_agent.Exec.Ensures.{WhenOk}
use homelab_inventory_agent.Assoc
use homelab_inventory_agent.Decimal.{parse_uint}
use homelab_inventory_agent.Update.Version.{split}
use homelab_inventory_agent.Linux.Proc.{minus64, percent_of}

pub data MemoryError : Type 0 where
  field_invalid totals_invalid : MemoryError

pub record Memory : Type 0 where
  pub total_bytes : ℕ
  pub available_bytes : ℕ
  pub used_bytes : ℕ
  pub cached_bytes : ℕ
  pub buffers_bytes : ℕ
  pub used_percent : Float
  pub swap_total_bytes : ℕ
  pub swap_free_bytes : ℕ
  pub free_bytes : Option ℕ
  pub reclaimable_bytes : Option ℕ
  pub shared_bytes : Option ℕ
  pub swap_used_bytes : Option ℕ
  pub swap_used_percent : Option Float

abbrev Values : Type 0
Values = List (Text × ℕ)

abbrev or_whole : Text → Option Text → Text
or_whole s none = s
or_whole s (some t) = t

-- strings.TrimSuffix(field, ":")
abbrev key_of : Text → Text
key_of field = or_whole field (strip_suffix (codes ":") field)

abbrev set_value : Text → Option ℕ → Values → Result MemoryError Values
set_value key none values = err field_invalid
set_value key (some n) values = ok (Assoc.set key ((n * 1024) % u64_mod) values)

unfoldable pub add_fields : List Text → Values → Result MemoryError Values
add_fields (name ∷ value ∷ rest) values = set_value (key_of name) (parse_uint value) values
add_fields _ values = ok values

-- bufio.Scanner gives up at a line of 65536 bytes, and its error is not looked at.
unfoldable pub memory_lines : List Text → Result MemoryError Values → Result MemoryError Values
memory_lines lines (err e) = err e
memory_lines [] (ok values) = ok values
memory_lines (line ∷ lines) (ok values) =
    let rest = memory_lines lines (add_fields (fields line) values) in
    if leb 65536 (length line) then ok values else rest

abbrev or_zero : Option ℕ → ℕ
or_zero none = 0
or_zero (some n) = n

-- `values[name]`, 0 where it is missing.
unfoldable pub value_of : Values → Text → ℕ
value_of values name = or_zero (Assoc.get values name)

module _ (floats : FloatLibrary) where
  abbrev memory_of : Values → Memory
  memory_of values =
      let total = value_of values (codes "MemTotal") in
      let available = value_of values (codes "MemAvailable") in
      let swap = value_of values (codes "SwapTotal") in
      let swap_used = minus64 swap (value_of values (codes "SwapFree")) in
      record {
        total_bytes = total;
        available_bytes = available;
        used_bytes = minus64 total available;
        cached_bytes = value_of values (codes "Cached");
        buffers_bytes = value_of values (codes "Buffers");
        used_percent = percent_of floats (minus64 total available) total;
        swap_total_bytes = swap;
        swap_free_bytes = value_of values (codes "SwapFree");
        free_bytes = Assoc.get values (codes "MemFree");
        reclaimable_bytes = Assoc.get values (codes "SReclaimable");
        shared_bytes = Assoc.get values (codes "Shmem");
        swap_used_bytes = if swap == 0 then none else some swap_used;
        swap_used_percent = if swap == 0 then none else some (percent_of floats swap_used swap);
      }

  unfoldable pub checked_memory : Values → Result MemoryError Memory
  checked_memory values =
      let total = value_of values (codes "MemTotal") in
      let available = value_of values (codes "MemAvailable") in
      if total == 0 || ltb total available then err totals_invalid else ok (memory_of values)

  abbrev with_values : Result MemoryError Values → Result MemoryError Memory
  with_values (err e) = err e
  with_values (ok values) = checked_memory values

  unfoldable pub parse_meminfo : Text → Result MemoryError Memory
  parse_meminfo body = with_values (memory_lines (split b'\n' body) (ok []))

abbrev Small : Values → Type 0
Small = All (λ entry. entry.1 < u64_mod)

set_value-Small :
    (key : Text) (o : Option ℕ) (values : Values)
    → Small values
    → WhenOk Small (set_value key o values)
set_value-Small key none values h = tt
set_value-Small key (some n) values h =
    Assoc.set-All (λ entry. entry.1 < u64_mod) key ((n * 1024) % u64_mod) values (omega arith) h

add_fields-Small :
    (parts : List Text) (values : Values) → Small values → WhenOk Small (add_fields parts values)
unfolding add_fields
add_fields-Small [] values h = h
add_fields-Small (name ∷ []) values h = h
add_fields-Small (name ∷ value ∷ rest) values h =
    set_value-Small (key_of name) (parse_uint value) values h

memory_lines-Small :
    (lines : List Text) (r : Result MemoryError Values)
    → WhenOk Small r
    → WhenOk Small (memory_lines lines r)
unfolding memory_lines
memory_lines-Small [] (err e) h = tt
memory_lines-Small (line ∷ lines) (err e) h = tt
memory_lines-Small [] (ok values) h = h
memory_lines-Small (line ∷ lines) (ok values) h = elim (Bool-cases (leb 65536 (length line))) [
  | inl e ↦ rw e h
  | inr e ↦ rw e (memory_lines-Small lines _ (add_fields-Small (fields line) values h))
]

Found-small : (o : Option ℕ) → Assoc.Found (λ n. n < u64_mod) o → or_zero o < u64_mod
Found-small none h = omega arith
Found-small (some n) h = h

value_of-Small : (values : Values) (name : Text) → Small values → value_of values name < u64_mod
unfolding value_of
value_of-Small values name h =
    Found-small (Assoc.get values name) (Assoc.get-All (λ n. n < u64_mod) name values h)

-- A total that is not 0, of which a part is available and the rest is used.
pub record Consistent (m : Memory) : Type 0 where
  pub some_memory : m.total_bytes ≢ 0
  pub available_fits : m.available_bytes ≤ m.total_bytes
  pub used_rest : m.used_bytes + m.available_bytes ≡ m.total_bytes

rest-sum : (a b : ℕ) → a < u64_mod → b ≤ a → minus64 a b + b ≡ a
rest-sum a b h le = omega (arith, h, le)

not-zero : (n : ℕ) → (n == 0) ≡ false → n ≢ 0
not-zero n h e = ground (arith, h, e)

checked_memory-Consistent :
    (floats : FloatLibrary) (values : Values)
    → Small values
    → WhenOk Consistent (checked_memory floats values)
unfolding checked_memory
checked_memory-Consistent floats values h =
    let total = value_of values (codes "MemTotal") in
    let available = value_of values (codes "MemAvailable") in
    elim (Bool-cases (total == 0 || ltb total available)) [
      | inl e ↦ rw e tt
      | inr e ↦
          let (some_total, fits) = ||-false (total == 0) (ltb total available) e in
          rw e (record {
            some_memory = not-zero total some_total;
            available_fits = ltb→le total available fits;
            used_rest =
                rest-sum total available (value_of-Small values (codes "MemTotal") h)
                  (ltb→le total available fits);
          })
    ]

with_values-Consistent :
    (floats : FloatLibrary) (r : Result MemoryError Values)
    → WhenOk Small r
    → WhenOk Consistent (with_values floats r)
with_values-Consistent floats (err e) h = tt
with_values-Consistent floats (ok values) h = checked_memory-Consistent floats values h

-- Whatever the text is: the memory that is read of it has a total that is not 0, and its available and
-- used bytes add up to the total.
pub parse_meminfo-Consistent :
    (floats : FloatLibrary) (body : Text) → WhenOk Consistent (parse_meminfo floats body)
unfolding parse_meminfo
parse_meminfo-Consistent floats body =
    with_values-Consistent floats (memory_lines (split b'\n' body) (ok []))
      (memory_lines-Small (split b'\n' body) (ok []) tt)
