-- ===== src/Decimal/RoundTrip.antt =====
-- Printing with a fixed width and parsing back.
use homelab_inventory_agent.Prelude.{
  ℕ, zero, suc, ◌+◌, ◌-◌, ◌*◌, ◌/◌, ◌%◌, ◌^◌, ◌<◌, ◌≤◌, [], ◌∷◌, ◌++◌, Text, u64_mod, some, ◌≡◌,
  refl, arith, ◌∙◌, ◌≢◌, Bool-cases, inl, inr, ◌==◌, All, All-append, length, length-append, ap,
  sym,
}
use mathlib.Core.List.{append_assoc, append-nil}
use native.Mathlib.Nat.{pow-suc}
use homelab_inventory_agent.Decimal.{
  scan_digits, parse_uint, digits, skip_zeros, no_zeros, format_uint,
}

-- One digit more, as long as the value fits.
scan_step :
    (d n : ℕ) (s : Text)
    → d < 10
    → n * 10 + d < u64_mod
    → scan_digits ((b'0' + d) ∷ s) n ≡ scan_digits s (n * 10 + d)
unfolding scan_digits
scan_step d n s h fits = let back : b'0' + d - b'0' ≡ d = omega arith in rw back (ground arith)

pub scan-digits :
    (k n : ℕ) (rest : Text)
    → n < 10 ^ k
    → n < u64_mod
    → scan_digits (digits k n ++ rest) 0 ≡ scan_digits rest n
unfolding digits
scan-digits zero n rest h fits = let e : n ≡ 0 = omega arith in rw e
scan-digits (suc k) n rest h fits =
    let wide : n < 10 ^ k * 10 = rw pow-suc at h in
    let small : n / 10 < 10 ^ k = omega arith in
    let whole : n / 10 * 10 + n % 10 ≡ n = omega arith in
    rw (
      append_assoc,
      scan-digits k (n / 10) ((b'0' + n % 10) ∷ rest) small (omega arith),
      scan_step (n % 10) (n / 10) rest (omega arith) (omega arith),
      whole,
    )

length-digits : (k n : ℕ) → length (digits k n) ≡ k
unfolding digits
length-digits zero n = refl
length-digits (suc k) n =
    omega
      (arith, length-append (digits k (n / 10)) ((b'0' + n % 10) ∷ []), length-digits k (n / 10))

parse-scan : (s : Text) → s ≢ [] → parse_uint s ≡ scan_digits s 0
unfolding parse_uint
parse-scan [] h = absurd (h refl)
parse-scan (c ∷ s) h = refl

-- A uint64 printed with leading zeros to a fixed width that holds it is parsed to itself.
pub parse_uint-digits :
    (k n : ℕ) → 0 < k → n < 10 ^ k → n < u64_mod → parse_uint (digits k n) ≡ some n
parse_uint-digits k n pos wide fits =
    parse-scan (digits k n) (λ e. absurd (omega (arith, length-digits k n, ap length e)))
    ∙ ap (λ t. scan_digits t 0) (sym (append-nil (digits k n)))
    ∙ scan-digits k n [] wide fits
    ∙ unfold scan_digits in refl

scan-skip_zeros : (s : Text) → scan_digits (skip_zeros s) 0 ≡ scan_digits s 0
unfolding skip_zeros scan_digits
scan-skip_zeros [] = refl
scan-skip_zeros (c ∷ s) = elim (Bool-cases (c == b'0')) [
  | inl zero_digit ↦ let e : c ≡ b'0' = ground arith in rw (zero_digit, e) (scan-skip_zeros s)
  | inr other ↦ rw other
]

parse-no_zeros : (s : Text) → parse_uint (no_zeros s) ≡ scan_digits s 0
unfolding parse_uint
parse-no_zeros [] = refl
parse-no_zeros (c ∷ s) = refl

-- A uint64 in decimal is parsed to itself.
pub parse_uint-format_uint : (n : ℕ) → n < u64_mod → parse_uint (format_uint n) ≡ some n
unfolding format_uint
parse_uint-format_uint n fits =
    parse-no_zeros (skip_zeros (digits 20 n))
    ∙ scan-skip_zeros (digits 20 n)
    ∙ sym (parse-scan (digits 20 n) (λ e. absurd (omega (arith, length-digits 20 n, ap length e))))
    ∙ parse_uint-digits 20 n (omega arith) (omega arith) fits

abbrev pub Digits : Text → Type 0
Digits = All (λ c. (b'0' ≤ c) × (c ≤ b'9'))

digits-Digits : (k n : ℕ) → Digits (digits k n)
unfolding digits
digits-Digits zero n = tt
digits-Digits (suc k) n =
    All-append _ (digits k (n / 10)) _ (digits-Digits k (n / 10)) (omega arith)

skip_zeros-Digits : (s : Text) → Digits s → Digits (skip_zeros s)
unfolding skip_zeros
skip_zeros-Digits [] h = tt
skip_zeros-Digits (c ∷ s) (hc, hs) = elim (Bool-cases (c == b'0')) [
  | inl e ↦ rw e (skip_zeros-Digits s hs)
  | inr e ↦ rw e (hc, hs)
]

no_zeros-Digits : (s : Text) → Digits s → Digits (no_zeros s)
no_zeros-Digits [] h = omega arith
no_zeros-Digits (c ∷ s) h = h

pub format_uint-Digits : (n : ℕ) → Digits (format_uint n)
unfolding format_uint
format_uint-Digits n =
    no_zeros-Digits (skip_zeros (digits 20 n))
      (skip_zeros-Digits (digits 20 n) (digits-Digits 20 n))
