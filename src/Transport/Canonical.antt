-- ===== src/Transport/Canonical.antt =====
-- internal/transport/client.go, CanonicalRequest: the text that a signature covers, as a function of the
-- request.
use homelab_inventory_agent.Prelude.{
  ℕ, ◌<◌, [], ◌∷◌, ◌++◌, Text, map, All, u64_mod, ◌≡◌, ◌≢◌, arith, ◌∙◌, sym, ap,
}
use homelab_inventory_agent.Decimal.{format_uint, parse_uint}
use homelab_inventory_agent.Decimal.RoundTrip.{parse_uint-format_uint, Digits, format_uint-Digits}
use homelab_inventory_agent.Transport.{canonical_request, to_upper_byte, newline, signature_prefix}

abbrev pub OneLine : Text → Type 0
OneLine = All (λ c. c ≢ b'\n')

-- Lines that end at the same mark are the same.
line_split :
    (a b s t : Text)
    → OneLine a
    → OneLine b
    → a ++ (newline ++ s) ≡ b ++ (newline ++ t)
    → (a ≡ b) × (s ≡ t)
line_split [] [] s t ha hb h = ground arith
line_split [] (d ∷ b) s t ha hb h = ground arith
line_split (c ∷ a) [] s t ha hb h = ground arith
line_split (c ∷ a) (d ∷ b) s t (hc, ha) (hd, hb) h = ground (arith, line_split a b s t ha hb)

upper-OneLine : (s : Text) → OneLine s → OneLine (map to_upper_byte s)
upper-OneLine [] h = tt
upper-OneLine (c ∷ s) (hc, h) = (ground arith, upper-OneLine s h)

Digits-OneLine : (s : Text) → Digits s → OneLine s
Digits-OneLine [] h = tt
Digits-OneLine (c ∷ s) (hc, h) = (omega arith, Digits-OneLine s h)

format_uint-injective :
    (n m : ℕ) → n < u64_mod → m < u64_mod → format_uint n ≡ format_uint m → n ≡ m
format_uint-injective n m hn hm e =
    ground
      (arith, sym (parse_uint-format_uint n hn) ∙ ap parse_uint e ∙ parse_uint-format_uint m hm)

-- Two requests that are signed over the same text have the same method up to case, path, timestamp,
-- sequence number and body digest, if none of their fields holds a newline.
pub canonical_request-injective :
    (m m' p p' t t' d d' : Text) (n n' : ℕ)
    → OneLine m × OneLine m'
    → OneLine p × OneLine p'
    → OneLine t × OneLine t'
    → n < u64_mod
    → n' < u64_mod
    → canonical_request m p t n d ≡ canonical_request m' p' t' n' d'
    → (map to_upper_byte m ≡ map to_upper_byte m') × (p ≡ p') × (t ≡ t') × (n ≡ n') × (d ≡ d')
unfolding canonical_request
canonical_request-injective m m' p p' t t' d d' n n' hm hp ht hn hn' h =
    let (a, h1) = line_split signature_prefix signature_prefix _ _ (omega arith) (omega arith) h in
    let (b, h2) = line_split _ _ _ _ (upper-OneLine m hm.0) (upper-OneLine m' hm.1) h1 in
    let (c, h3) = line_split p p' _ _ hp.0 hp.1 h2 in
    let (e, h4) = line_split t t' _ _ ht.0 ht.1 h3 in
    let (f, g) =
      line_split _ _ d d' (Digits-OneLine _ (format_uint-Digits n))
        (Digits-OneLine _ (format_uint-Digits n')) h4 in
    (b, c, e, format_uint-injective n n' hn hn' f, g)
