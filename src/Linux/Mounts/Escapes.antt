-- ===== src/Linux/Mounts/Escapes.antt =====
-- decodeMountField on the fields of /proc/self/mountinfo, which the kernel writes.
use homelab_inventory_agent.Prelude.{
  ℕ, ◌==◌, ==_iff, [], ◌∷◌, ◌++◌, Text, All, codes, false, none, ◌≡◌, ◌≢◌, refl, ap, ◌∙◌, inl, inr,
  Bool-cases, arith,
}
use homelab_inventory_agent.Linux.Mounts.{escape_of, decode_from, decode_mount_field}

-- What the kernel documents of the bytes of a field: space, tab, line feed and backslash are octal
-- numbers, and every other byte stands for itself; nothing is assumed of `#`.
pub record EscapesOctal (escape : ℕ → Text) : Type 0 where
  pub space : escape b' ' ≡ codes "\\040"
  pub tab : escape b'\t' ≡ codes "\\011"
  pub line_feed : escape b'\n' ≡ codes "\\012"
  pub backslash : escape b'\\' ≡ codes "\\134"
  pub plain : (c : ℕ) → c ≢ b' ' → c ≢ b'\t' → c ≢ b'\n' → c ≢ b'\\' → c ≢ b'#' → escape c ≡ c ∷ []

module _ (escape : ℕ → Text) where
  -- A field as it stands in the file, byte for byte.
  abbrev pub escaped : Text → Text
  escaped [] = []
  escaped (c ∷ s) = escape c ++ escaped s

escape_of-other : (c : ℕ) (rest : Text) → (c == 92) ≡ false → escape_of (c ∷ rest) ≡ none
unfolding escape_of
escape_of-other c [] h = refl
escape_of-other c (x ∷ []) h = refl
escape_of-other c (x ∷ y ∷ []) h = refl
escape_of-other c (x ∷ y ∷ z ∷ s) h = rw h refl

decode-other :
    (c : ℕ) (rest : Text) → (c == 92) ≡ false → decode_from 0 (c ∷ rest) ≡ c ∷ decode_from 0 rest
unfolding decode_from
decode-other c rest h = rw (escape_of-other c rest h, decode_from) refl

module _ (escape : ℕ → Text) (octal : EscapesOctal escape) where
  differs : (c d : ℕ) → (c == d) ≡ false → c ≢ d
  differs c d h = ground arith

  decode-escape :
      (c : ℕ) (rest : Text) → c ≢ b'#' → decode_from 0 (escape c ++ rest) ≡ c ∷ decode_from 0 rest
  unfolding decode_from escape_of
  decode-escape c rest h = elim (Bool-cases (c == b' ')) [
    | inl e ↦ rw ((==_iff c b' ').0 e, octal.space) refl
    | inr e ↦ elim (Bool-cases (c == b'\t')) [
      | inl f ↦ rw ((==_iff c b'\t').0 f, octal.tab) refl
      | inr f ↦ elim (Bool-cases (c == b'\n')) [
        | inl g ↦ rw ((==_iff c b'\n').0 g, octal.line_feed) refl
        | inr g ↦ elim (Bool-cases (c == b'\\')) [
          | inl k ↦ rw ((==_iff c b'\\').0 k, octal.backslash) refl
          | inr k ↦
              rw (octal.plain c (differs c _ e) (differs c _ f) (differs c _ g) (differs c _ k) h)
                (decode-other c rest k)
        ]
      ]
    ]
  ]

  decode_from-escaped : (s : Text) → All (λ c. c ≢ b'#') s → decode_from 0 (escaped escape s) ≡ s
  unfolding decode_from
  decode_from-escaped [] h = refl
  decode_from-escaped (c ∷ s) (h, hs) =
      decode-escape c (escaped escape s) h ∙ ap (λ t. c ∷ t) (decode_from-escaped s hs)

  -- If the kernel escapes space, tab, line feed and backslash as octal numbers and writes every other
  -- byte but `#` as it is, a field without a `#` is decoded to what it was.
  pub decode_mount_field-escaped :
      (s : Text) → All (λ c. c ≢ b'#') s → decode_mount_field (escaped escape s) ≡ s
  unfolding decode_mount_field
  decode_mount_field-escaped s h = decode_from-escaped s h
