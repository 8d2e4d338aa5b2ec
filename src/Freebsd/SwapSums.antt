-- ===== src/Freebsd/SwapSums.antt =====
-- internal/collectors/freebsd/parse.go: the sums that parseSwap makes of the rows of swapinfo.
use homelab_inventory_agent.Prelude.{
  ℕ, ◌+◌, ◌*◌, ◌%◌, ◌≤◌, ◌<◌, List, [], ◌∷◌, Text, Option, none, some, u64_mod, FloatLibrary, ◌≡◌,
  refl, ap, ◌∙◌, arith,
}
use homelab_inventory_agent.Freebsd.{
  rows, row_swap, swap_of, add_swap, swap_sums, parse_swap, parse_uint,
}

abbrev row_total : Option (ℕ × ℕ) → ℕ
row_total none = 0
row_total (some (total, used)) = total

abbrev row_used : Option (ℕ × ℕ) → ℕ
row_used none = 0
row_used (some (total, used)) = used

-- The kilobytes of all rows that count, without a bound.
unfoldable pub all_total : List (List Text) → ℕ
all_total [] = 0
all_total (row ∷ rest) = row_total (swap_of row) + all_total rest

unfoldable pub all_used : List (List Text) → ℕ
all_used [] = 0
all_used (row ∷ rest) = row_used (swap_of row) + all_used rest

row_swap-le :
    (total used : Option ℕ) → row_used (row_swap total used) ≤ row_total (row_swap total used)
row_swap-le none used = omega arith
row_swap-le (some total) none = omega arith
row_swap-le (some total) (some used) = ground arith

swap_of-le : (row : List Text) → row_used (swap_of row) ≤ row_total (swap_of row)
unfolding swap_of
swap_of-le [] = omega arith
swap_of-le (a ∷ []) = omega arith
swap_of-le (a ∷ b ∷ []) = omega arith
swap_of-le (a ∷ b ∷ c ∷ []) = omega arith
swap_of-le (a ∷ b ∷ c ∷ d ∷ rest) = row_swap-le (parse_uint b) (parse_uint c)

all_used-le : (table : List (List Text)) → all_used table ≤ all_total table
unfolding all_used all_total
all_used-le [] = omega arith
all_used-le (row ∷ rest) =
    let first = swap_of-le row in let others = all_used-le rest in omega (arith, first, others)

both-equal : (a b c d : ℕ) → a ≡ b → c ≡ d → ◌≡◌ {A = ℕ × ℕ} (a, c) (b, d)
both-equal a b c d e f = rw (e, f) refl

add_swap-sum :
    (o : Option (ℕ × ℕ)) (t u : ℕ)
    → row_used o ≤ row_total o
    → u ≤ t
    → t + row_total o < u64_mod
    → add_swap o (t, u) ≡ (t + row_total o, u + row_used o)
add_swap-sum none t u le more h = both-equal _ _ _ _ (omega arith) (omega arith)
add_swap-sum (some (total, used)) t u le more h =
    both-equal _ _ _ _ (omega (arith, h)) (omega (arith, h, le, more))

swap_sums-all :
    (table : List (List Text)) (t u : ℕ)
    → u ≤ t
    → t + all_total table < u64_mod
    → swap_sums table (t, u) ≡ (t + all_total table, u + all_used table)
unfolding swap_sums all_total all_used
swap_sums-all [] t u le h = both-equal _ _ _ _ (omega arith) (omega arith)
swap_sums-all (row ∷ rest) t u le h =
    let row_le = swap_of-le row in
    let here : t + row_total (swap_of row) < u64_mod = omega (arith, h) in
    let there : t + row_total (swap_of row) + all_total rest < u64_mod = omega (arith, h) in
    let still : u + row_used (swap_of row) ≤ t + row_total (swap_of row) =
      omega (arith, le, row_le) in
    ap (swap_sums rest) (add_swap-sum (swap_of row) t u row_le le here)
    ∙ swap_sums-all rest (t + row_total (swap_of row)) (u + row_used (swap_of row)) still there
    ∙ both-equal _ _ _ _ (omega arith) (omega arith)

whole_bytes : (n : ℕ) → n < 18_014_398_509_481_984 → ((0 + n) * 1024) % u64_mod ≡ n * 1024
whole_bytes n h = omega (arith, h)

within_bytes :
    (n k : ℕ)
    → n < 18_014_398_509_481_984
    → k ≤ n
    → ((0 + k) * 1024) % u64_mod ≤ ((0 + n) * 1024) % u64_mod
within_bytes n k h le = omega (arith, h, le)

-- Where the kilobytes of all rows that count are less than 2^54: the total and the used bytes are those
-- of the rows, without wrapping, and no more is used than there is.
pub parse_swap-within :
    (floats : FloatLibrary) (body : Text)
    → all_total (rows body) < 18_014_398_509_481_984
    → ((parse_swap floats body).total_bytes ≡ all_total (rows body) * 1024)
      × ((parse_swap floats body).used_bytes ≡ all_used (rows body) * 1024)
      × ((parse_swap floats body).used_bytes ≤ (parse_swap floats body).total_bytes)
unfolding parse_swap
parse_swap-within floats body small =
    let sums = swap_sums-all (rows body) 0 0 (omega arith) (omega (arith, small)) in
    let le = all_used-le (rows body) in
    rw sums (
      whole_bytes (all_total (rows body)) small,
      whole_bytes (all_used (rows body)) (omega (arith, le, small)),
      within_bytes (all_total (rows body)) (all_used (rows body)) small le,
    )
