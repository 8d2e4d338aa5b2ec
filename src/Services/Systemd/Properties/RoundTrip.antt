-- ===== src/Services/Systemd/Properties/RoundTrip.antt =====
-- internal/collectors/services/systemd.go: the properties of units as `systemctl show` prints them, and
-- what the parser makes of them.
use homelab_inventory_agent.Prelude.{
  ℕ, ◌==◌, ◌&&◌, not, List, [], ◌∷◌, ◌++◌, Text, text_eq, is_empty, all, map, All, Bool, true,
  false, Option, none, some, ◌≡◌, refl, sym, ap, ◌∙◌, arith, &&-true, Bool-cases, inl, inr,
  text_eq→eq,
}
use homelab_inventory_agent.Assoc
use homelab_inventory_agent.Assoc.{get, set, get-set}
use homelab_inventory_agent.Update.Version.{cut, split}
use homelab_inventory_agent.Services.{replace_crlf, unix_lines}
use homelab_inventory_agent.Services.Systemd.Properties.{
  UnitProperties, add_property, flush, parse_lines, parse_systemd_properties,
}

abbrev line_of : Text × Text → Text
line_of (key, value) = key ++ (b'=' ∷ value)

-- A line for each property and a blank line behind them.
unfoldable pub print_unit : UnitProperties → Text → Text
print_unit [] rest = b'\n' ∷ rest
print_unit (p ∷ unit) rest = line_of p ++ (b'\n' ∷ print_unit unit rest)

unfoldable pub print_units : List UnitProperties → Text
print_units [] = []
print_units (unit ∷ units) = print_unit unit (print_units units)

abbrev pub is_plain : Text → Bool
is_plain = all (λ c. not (c == b'\n') && not (c == b'\r'))

abbrev pub is_key : Text → Bool
is_key = all (λ c. not (c == b'='))

-- A property that fits on a line: a key without `=`, and no line break.
pub record Printable (p : Text × Text) : Type 0 where
  pub key_there : is_empty p.0 ≡ false
  pub key_plain : is_key p.0 ≡ true
  pub line_plain : is_plain (line_of p) ≡ true

-- The keys are different.
abbrev pub OneEach : UnitProperties → Type 0
OneEach [] = Unit
OneEach ((key, value) ∷ unit) = (Assoc.get unit key ≡ none) × OneEach unit

pub record PrintableUnit (unit : UnitProperties) : Type 0 where
  pub some_property : is_empty unit ≡ false
  pub lines : All Printable unit
  pub one_each : OneEach unit

plain-step :
    (c : ℕ) (b : Bool)
    → ((not (c == b'\n') && not (c == b'\r')) && b) ≡ true
    → ((c == b'\n') ≡ false) × ((c == b'\r') ≡ false) × (b ≡ true)
plain-step c b h = ground (arith, h)

replace_crlf-line :
    (s rest : Text)
    → is_plain s ≡ true
    → replace_crlf (s ++ (b'\n' ∷ rest)) ≡ s ++ (b'\n' ∷ replace_crlf rest)
unfolding replace_crlf
replace_crlf-line [] rest h = refl
replace_crlf-line (c ∷ s) rest h =
    let (_, other, plain) = plain-step c (is_plain s) h in
    rw (other, replace_crlf-line s rest plain) refl

split-line :
    (s rest : Text) → is_plain s ≡ true → split b'\n' (s ++ (b'\n' ∷ rest)) ≡ s ∷ split b'\n' rest
unfolding split
split-line [] rest h = refl
split-line (c ∷ s) rest h =
    let (other, _, plain) = plain-step c (is_plain s) h in rw (other, split-line s rest plain) refl

unix_lines-line :
    (s rest : Text) → is_plain s ≡ true → unix_lines (s ++ (b'\n' ∷ rest)) ≡ s ∷ unix_lines rest
unfolding unix_lines
unix_lines-line s rest h =
    ap (split b'\n') (replace_crlf-line s rest h) ∙ split-line s (replace_crlf rest) h

not-true : (b : Bool) → not b ≡ true → b ≡ false
not-true b h = ground (arith, h)

cut-line :
    (key value : Text) → is_key key ≡ true → cut b'=' (key ++ (b'=' ∷ value)) ≡ (key, some value)
unfolding cut
cut-line [] value h = refl
cut-line (c ∷ key) value h =
    let (other, plain) = &&-true _ _ h in
    rw (not-true (c == b'=') other, cut-line key value plain) refl

-- The properties put into a map in turn.
unfoldable pub filled : UnitProperties → UnitProperties → UnitProperties
filled [] current = current
filled ((key, value) ∷ unit) current = filled unit (Assoc.set key value current)

line-add_property :
    (p : Text × Text) (current : UnitProperties)
    → Printable p
    → add_property (cut b'=' (line_of p)) current ≡ Assoc.set p.0 p.1 current
unfolding add_property
line-add_property (key, value) current h = rw (cut-line key value h.key_plain, h.key_there) refl

line-is_empty : (p : Text × Text) → Printable p → is_empty (line_of p) ≡ false
line-is_empty ([], value) h = refl
line-is_empty (c ∷ key, value) h = refl

step-parse_lines :
    (p : Text × Text) (lines : List Text) (current : UnitProperties)
    → Printable p
    → parse_lines current (line_of p ∷ lines) ≡ parse_lines (Assoc.set p.0 p.1 current) lines
unfolding parse_lines
step-parse_lines p lines current h = rw (line-is_empty p h, line-add_property p current h) refl

blank-parse_lines :
    (lines : List Text) (current : UnitProperties)
    → parse_lines current ([] ∷ lines) ≡ flush current (parse_lines [] lines)
unfolding parse_lines
blank-parse_lines lines current = refl

parse_lines-print_unit :
    (unit current : UnitProperties) (rest : Text)
    → All Printable unit
    → parse_lines current (unix_lines (print_unit unit rest))
      ≡ flush (filled unit current) (parse_lines [] (unix_lines rest))
unfolding print_unit filled
parse_lines-print_unit [] current rest h =
    ap (parse_lines current) (unix_lines-line [] rest refl)
    ∙ blank-parse_lines (unix_lines rest) current
parse_lines-print_unit (p ∷ unit) current rest (h, hs) =
    ap (parse_lines current) (unix_lines-line (line_of p) (print_unit unit rest) h.line_plain)
    ∙ step-parse_lines p (unix_lines (print_unit unit rest)) current h
    ∙ parse_lines-print_unit unit (Assoc.set p.0 p.1 current) rest hs

filled-is_empty :
    (unit current : UnitProperties)
    → is_empty current ≡ false
    → is_empty (filled unit current) ≡ false
unfolding filled set
filled-is_empty [] current h = h
filled-is_empty ((key, value) ∷ unit) current h =
    filled-is_empty unit (Assoc.set key value current) refl

some-filled : (unit : UnitProperties) → is_empty unit ≡ false → is_empty (filled unit []) ≡ false
unfolding filled set
some-filled [] h = ground (arith, h)
some-filled ((key, value) ∷ unit) h = filled-is_empty unit (Assoc.set key value []) refl

flush-some :
    (unit : UnitProperties) (rest : List UnitProperties)
    → is_empty unit ≡ false
    → flush unit rest ≡ unit ∷ rest
flush-some unit rest h = rw h refl

parse_lines-print_units :
    (units : List UnitProperties)
    → All PrintableUnit units
    → parse_lines [] (unix_lines (print_units units)) ≡ map (λ unit. filled unit []) units
unfolding print_units unix_lines replace_crlf split parse_lines
parse_lines-print_units [] h = refl
parse_lines-print_units (unit ∷ units) (h, hs) =
    parse_lines-print_unit unit [] (print_units units) h.lines
    ∙ flush-some (filled unit []) _ (some-filled unit h.some_property)
    ∙ ap (λ rest. filled unit [] ∷ rest) (parse_lines-print_units units hs)

-- The value of a key in the unit, or else in what was there before.
abbrev or_before : Option Text → Option Text → Option Text
or_before none before = before
or_before (some value) before = some value

-- A key that is new in the unit: its value hides what was there, and it hides no other key.
set-or_before :
    (unit current : UnitProperties) (other key value : Text)
    → Assoc.get unit other ≡ none
    → or_before (Assoc.get unit key) (Assoc.get (Assoc.set other value current) key)
      ≡ or_before (Assoc.get ((other, value) ∷ unit) key) (Assoc.get current key)
unfolding get
set-or_before unit current other key value new = elim (Bool-cases (text_eq other key)) [
  | inl e ↦
      rw
        (
          get-set other key value current,
          e,
          sym (ap (Assoc.get unit) (text_eq→eq other key e)) ∙ new,
        )
        refl
  | inr e ↦ rw (get-set other key value current, e) refl
]

get-filled :
    (unit current : UnitProperties) (key : Text)
    → OneEach unit
    → Assoc.get (filled unit current) key ≡ or_before (Assoc.get unit key) (Assoc.get current key)
unfolding filled get
get-filled [] current key h = refl
get-filled ((other, value) ∷ unit) current key (new, h) =
    get-filled unit (Assoc.set other value current) key h
    ∙ set-or_before unit current other key value new

before_nothing : (o : Option Text) → or_before o none ≡ o
before_nothing none = refl
before_nothing (some value) = refl

filled-Same :
    (units : List UnitProperties)
    → All PrintableUnit units
    → All (λ unit. (key : Text) → Assoc.get (filled unit []) key ≡ Assoc.get unit key) units
unfolding get
filled-Same [] h = tt
filled-Same (unit ∷ units) (h, hs) = (
  (λ key. get-filled unit [] key h.one_each ∙ before_nothing (Assoc.get unit key)),
  filled-Same units hs,
)

-- Units whose properties fit on lines, each with one line for a key, are read back from their print:
-- there are as many, in the same order, and every key has the value it had.
pub parse_systemd_properties-print_units :
    (units : List UnitProperties)
    → All PrintableUnit units
    → (parse_systemd_properties (print_units units) ≡ map (λ unit. filled unit []) units)
      × All (λ unit. (key : Text) → Assoc.get (filled unit []) key ≡ Assoc.get unit key) units
unfolding parse_systemd_properties
parse_systemd_properties-print_units units h =
    (parse_lines-print_units units h, filled-Same units h)
