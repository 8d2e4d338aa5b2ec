-- ===== src/Update/Version.antt =====
-- internal/agentupdate/version.go: semantic versions, parsed and compared.
pub mod Precedence
use homelab_inventory_agent.Prelude.{
  ℕ, ◌+◌, ◌-◌, ◌^◌, ltb, leb, ◌==◌, ◌&&◌, ◌||◌, not, List, [], ◌∷◌, Text, codes, text_eq, is_empty,
  length, trim_space, strip_prefix, Bool, true, false, all, any, Option, none, some, Result, ok,
  err, ℤ, if◌then◌else◌, ◌≡◌, refl,
}
use homelab_inventory_agent.Decimal.{parse_uint}

pub record Version : Type 0 where
  pub major : ℕ
  pub minor : ℕ
  pub patch : ℕ
  pub pre : List Text

pub data VersionError : Type 0 where
  not_semantic invalid : VersionError

-- The text before the first separator, and the text behind it if there is one: SplitN(s, sep, 2).
abbrev pub cut_cons : ℕ → Text × Option Text → Text × Option Text
cut_cons c (before, after) = (c ∷ before, after)

unfoldable pub cut : ℕ → Text → Text × Option Text
cut sep [] = ([], none)
cut sep (c ∷ s) = let rest = cut sep s in if c == sep then ([], some s) else cut_cons c rest

-- strings.Split by a byte: one part at least.
abbrev pub join_first : ℕ → List Text → List Text
join_first c [] = (c ∷ []) ∷ []
join_first c (part ∷ parts) = (c ∷ part) ∷ parts

unfoldable pub split : ℕ → Text → List Text
split sep [] = [] ∷ []
split sep (c ∷ s) = let rest = split sep s in if c == sep then [] ∷ rest else join_first c rest

abbrev pub negate : ℕ → ℤ
negate ℕ.zero = ℤ.pos 0
negate (ℕ.suc n) = ℤ.negsuc n

abbrev in_int : Option ℕ → Option ℤ
in_int none = none
in_int (some n) = if ltb n (2 ^ 63) then some (ℤ.pos n) else none

abbrev in_negative_int : Option ℕ → Option ℤ
in_negative_int none = none
in_negative_int (some n) = if leb n (2 ^ 63) then some (negate n) else none

-- strconv.Atoi on a 64-bit platform: an optional sign and digits.
unfoldable pub atoi : Text → Option ℤ
atoi [] = none
atoi (c ∷ s) =
    if c == b'-'
    then in_negative_int (parse_uint s)
    else if c == b'+'
    then in_int (parse_uint s)
    else in_int (parse_uint (c ∷ s))

abbrev not_negative : Option ℤ → Option ℕ
not_negative none = none
not_negative (some (ℤ.pos n)) = some n
not_negative (some (ℤ.negsuc n)) = none

abbrev leads_with_zero : Text → Bool
leads_with_zero (c ∷ d ∷ s) = c == b'0'
leads_with_zero _ = false

-- One number of the core.
unfoldable pub core_number : Text → Option ℕ
core_number item = if is_empty item || leads_with_zero item then none else not_negative (atoi item)

abbrev pub is_identifier_byte : ℕ → Bool
is_identifier_byte c =
    c == b'-'
    || (leb b'0' c && leb c b'9')
    || (leb b'A' c && leb c b'Z')
    || (leb b'a' c && leb c b'z')

unfoldable pub is_identifier : Text → Bool
is_identifier s = not (is_empty s) && all is_identifier_byte s

abbrev numbers : Option ℕ → Option ℕ → Option ℕ → List Text → Result VersionError Version
numbers (some a) (some b) (some c) pre = ok (record { major = a; minor = b; patch = c; pre = pre })
numbers _ _ _ pre = err invalid

-- The core's numbers, then the identifiers.
abbrev with_core : List Text → List Text → Bool → Result VersionError Version
with_core (a ∷ b ∷ c ∷ []) pre valid =
    elim (numbers (core_number a) (core_number b) (core_number c) pre) [
      | ok v ↦ if valid then ok v else err invalid
      | err e ↦ err e
    ]
with_core _ pre valid = err not_semantic

abbrev with_pre : Text × Option Text → Result VersionError Version
with_pre (core, none) = with_core (split b'.' core) [] true
with_pre (core, some pre) =
    with_core (split b'.' core) (split b'.' pre)
      (not (is_empty pre) && all is_identifier (split b'.' pre))

abbrev without_v : Text → Text
without_v s = elim (strip_prefix (codes "v") s) [ none ↦ s | some rest ↦ rest ]

unfoldable pub parse_version : Text → Result VersionError Version
unfolding cut split core_number atoi is_identifier
parse_version input = with_pre (cut b'-' (cut b'+' (without_v (trim_space input))).0)

pub data Order : Type 0 where
  less equal greater : Order

abbrev pub compare_numbers : ℕ → ℕ → Order → Order
compare_numbers a b rest = if ltb a b then less else if ltb b a then greater else rest

abbrev pub int_lt : ℤ → ℤ → Bool
int_lt (ℤ.pos a) (ℤ.pos b) = ltb a b
int_lt (ℤ.pos a) (ℤ.negsuc b) = false
int_lt (ℤ.negsuc a) (ℤ.pos b) = true
int_lt (ℤ.negsuc a) (ℤ.negsuc b) = ltb b a

-- `left < right` on strings: byte by byte, a prefix first.
unfoldable pub text_lt : Text → Text → Bool
text_lt s [] = false
text_lt [] (d ∷ t) = true
text_lt (c ∷ s) (d ∷ t) = let rest = text_lt s t in if c == d then rest else ltb c d

-- Two identifiers that differ as texts: numbers by value, numbers before words, words by bytes.
abbrev pub by_kind : Option ℤ → Option ℤ → Text → Text → Order
by_kind (some x) (some y) l r = if int_lt x y then less else greater
by_kind (some x) none l r = less
by_kind none (some y) l r = greater
by_kind none none l r = if text_lt l r then less else greater

unfoldable pub compare_identifier : Text → Text → Order
compare_identifier l r = by_kind (atoi l) (atoi r) l r

-- The loop over both lists, then the lengths.
unfoldable pub compare_identifiers : List Text → List Text → Order
compare_identifiers [] [] = equal
compare_identifiers [] (r ∷ rs) = less
compare_identifiers (l ∷ ls) [] = greater
compare_identifiers (l ∷ ls) (r ∷ rs) =
    let rest = compare_identifiers ls rs in if text_eq l r then rest else compare_identifier l r

-- No identifiers at all come last.
unfoldable pub compare_pre : List Text → List Text → Order
compare_pre [] [] = equal
compare_pre [] (r ∷ rs) = greater
compare_pre (l ∷ ls) [] = less
compare_pre (l ∷ ls) (r ∷ rs) = compare_identifiers (l ∷ ls) (r ∷ rs)

unfoldable pub compare_parsed : Version → Version → Order
compare_parsed a b =
    compare_numbers a.major b.major
      (compare_numbers a.minor b.minor (compare_numbers a.patch b.patch (compare_pre a.pre b.pre)))

unfoldable pub compare_versions : Text → Text → Result VersionError Order
compare_versions first second = elim (parse_version first) [
  | err e ↦ err e
  | ok a ↦ elim (parse_version second) [ err e ↦ err e | ok b ↦ ok (compare_parsed a b) ]
]

parsed :
    parse_version (codes " v1.20.3-rc.1+build")
    ≡ ok (record { major = 1; minor = 20; patch = 3; pre = codes "rc" ∷ codes "1" ∷ [] })
unfolding parse_version compare_parsed trim_space parse_uint strip_prefix
parsed = refl
