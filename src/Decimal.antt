-- ===== src/Decimal.antt =====
-- strconv.ParseUint(s, 10, 64) and the decimal digits that fmt and strconv print.
pub mod RoundTrip
use homelab_inventory_agent.Prelude.{
  ℕ, zero, suc, ◌+◌, ◌-◌, ◌*◌, ◌/◌, ◌%◌, List, [], ◌∷◌, ◌++◌, Text, Bool, ltb, leb, ◌&&◌, ◌||◌,
  u64_mod, Option, none, some, if◌then◌else◌, ◌==◌,
}

-- A byte that is no digit, or a value past uint64, is an error.
unfoldable pub scan_digits : Text → ℕ → Option ℕ
scan_digits [] n = some n
scan_digits (c ∷ s) n =
    let d = c - b'0' in
    let rest = scan_digits s (n * 10 + d) in
    if ltb c b'0' || ltb b'9' c then none else if leb u64_mod (n * 10 + d) then none else rest

unfoldable pub parse_uint : Text → Option ℕ
unfolding scan_digits
parse_uint [] = none
parse_uint (c ∷ s) = scan_digits (c ∷ s) 0

-- The last `k` digits, with zeros in front.
unfoldable pub digits : ℕ → ℕ → Text
digits zero n = []
digits (suc k) n = digits k (n / 10) ++ (b'0' + n % 10) ∷ []

abbrev pub no_zeros : Text → Text
no_zeros [] = b'0' ∷ []
no_zeros (c ∷ s) = c ∷ s

unfoldable pub skip_zeros : Text → Text
skip_zeros [] = []
skip_zeros (c ∷ s) = let rest = skip_zeros s in if c == b'0' then rest else c ∷ s

-- strconv.FormatUint(n, 10): at most 20 digits.
unfoldable pub format_uint : ℕ → Text
unfolding digits skip_zeros
format_uint n = no_zeros (skip_zeros (digits 20 n))
