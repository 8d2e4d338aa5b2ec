-- ===== src/Prelude/Texts.antt =====
-- Go strings and byte slices as lists of bytes, with the tests of `strings` that the source uses.
use Prim.Native.Char.{code}
use Prim.Native.Nat.{ℕ, zero, suc}
use Prim.Native.String.{String}
use mathlib.Core.Path.{◌≡◌, refl, ap, ◌∙◌}
use mathlib.Core.Logic.{◌↔◌, inl, inr}
use mathlib.Core.Bool.{Bool, true, false, ◌&&◌, ◌||◌}
use mathlib.Core.Option.{Option, none, some}
use mathlib.Core.List.{List, [], ◌∷◌, ◌++◌}
use native.Mathlib.Omega.{arith}
use homelab_inventory_agent.Prelude.Lists.{length, is_empty, length-append}
use homelab_inventory_agent.Prelude.Tests.{leb, ◌==◌, if◌then◌else◌, Bool-cases}

abbrev pub Text : Type 0
Text = List ℕ

-- The bytes of an ASCII literal.
abbrev pub codes : String → Text
codes String.[] = []
codes (String.◌∷◌ c s) = code c ∷ codes s

unfoldable pub text_eq : Text → Text → Bool
text_eq [] [] = true
text_eq [] (d ∷ t) = false
text_eq (c ∷ s) [] = false
text_eq (c ∷ s) (d ∷ t) = c == d && text_eq s t

pub text_eq→eq : (s t : Text) → text_eq s t ≡ true → s ≡ t
unfolding text_eq
text_eq→eq [] [] h = refl
text_eq→eq [] (d ∷ t) h = ground arith
text_eq→eq (c ∷ s) [] h = ground arith
text_eq→eq (c ∷ s) (d ∷ t) h = ground (arith, text_eq→eq s t)

pub text_eq_refl : (s : Text) → text_eq s s ≡ true
unfolding text_eq
text_eq_refl [] = refl
text_eq_refl (c ∷ s) = ground (arith, text_eq_refl s)

pub text_eq_iff : (s t : Text) → (text_eq s t ≡ true) ↔ (s ≡ t)
text_eq_iff s t = (text_eq→eq s t, λ e. rw e (text_eq_refl t))

-- The text behind a prefix, if it is one.
unfoldable pub strip_prefix : Text → Text → Option Text
strip_prefix [] s = some s
strip_prefix (c ∷ p) [] = none
strip_prefix (c ∷ p) (d ∷ s) = let rest = strip_prefix p s in if c == d then rest else none

-- The text behind one leading white space character (unicode.IsSpace, in UTF-8), if there is one.
unfoldable pub strip_space : Text → Option Text
strip_space [] = none
strip_space (a ∷ []) = if (leb 9 a && leb a 13) || a == 32 then some [] else none
strip_space (a ∷ b ∷ []) =
    if (leb 9 a && leb a 13) || a == 32
    then some (b ∷ [])
    else if a == 0xc2 && (b == 0x85 || b == 0xa0)
    then some []
    else none
strip_space (a ∷ b ∷ c ∷ s) =
    if (leb 9 a && leb a 13) || a == 32
    then some (b ∷ c ∷ s)
    else if a == 0xc2 && (b == 0x85 || b == 0xa0)
    then some (c ∷ s)
    else if wide a b c
    then some s
    else none
  where
    wide : ℕ → ℕ → ℕ → Bool
    wide a b c =
        (a == 0xe1 && b == 0x9a && c == 0x80)
        || (a == 0xe2
            && b == 0x80
            && ((leb 0x80 c && leb c 0x8a) || c == 0xa8 || c == 0xa9 || c == 0xaf))
        || (a == 0xe2 && b == 0x81 && c == 0x9f)
        || (a == 0xe3 && b == 0x80 && c == 0x80)

-- White space and nothing else: strings.TrimSpace(s) == "". Each round takes a byte at least.
is_blank_in : ℕ → Text → Bool
is_blank_in zero s = is_empty s
is_blank_in (suc fuel) s = elim (strip_space s) [
  | none ↦ is_empty s
  | some rest ↦ is_blank_in fuel rest
]

unfoldable pub is_blank : Text → Bool
unfolding is_blank_in strip_space
is_blank s = is_blank_in (length s) s

-- A text that starts with another character is not blank.
pub solid-is_blank : (c : ℕ) (s : Text) → strip_space (c ∷ s) ≡ none → is_blank (c ∷ s) ≡ false
unfolding is_blank
solid-is_blank c s h = rw (h, is_blank, is_blank_in) refl

trim_left_in : ℕ → Text → Text
trim_left_in zero s = s
trim_left_in (suc fuel) s = elim (strip_space s) [ none ↦ s | some rest ↦ trim_left_in fuel rest ]

-- UTF-8 is self-synchronising: white space at the end is a blank suffix.
trim_right : Text → Text
trim_right [] = []
trim_right (c ∷ s) = let rest = trim_right s in if is_blank (c ∷ s) then [] else c ∷ rest

-- strings.TrimSpace
unfoldable pub trim_space : Text → Text
unfolding trim_left_in strip_space trim_right is_blank
trim_space s = trim_right (trim_left_in (length s) s)

abbrev put_field : Text → List Text → List Text
put_field field rest = if is_empty field then rest else field ∷ rest

-- strings.Fields; `field` is what is read of the field so far. Each round takes a byte at least.
fields_in : ℕ → Text → Text → List Text
fields_in zero field s = put_field field []
fields_in (suc fuel) field [] = put_field field []
fields_in (suc fuel) field (c ∷ s) = elim (strip_space (c ∷ s)) [
  | none ↦ fields_in fuel (field ++ (c ∷ [])) s
  | some rest ↦ put_field field (fields_in fuel [] rest)
]

unfoldable pub fields : Text → List Text
unfolding fields_in strip_space
fields s = fields_in (length s) [] s

-- The text before a suffix, if it is one: strings.HasSuffix and TrimSuffix.
abbrev cons_to : ℕ → Option Text → Option Text
cons_to c none = none
cons_to c (some s) = some (c ∷ s)

unfoldable pub strip_suffix : Text → Text → Option Text
strip_suffix suffix [] = if text_eq [] suffix then some [] else none
strip_suffix suffix (c ∷ s) =
    let rest = strip_suffix suffix s in if text_eq (c ∷ s) suffix then some [] else cons_to c rest

longer-ne : (c : ℕ) (p s : Text) → text_eq (c ∷ p ++ s) s ≡ false
longer-ne c p s = elim (Bool-cases (text_eq (c ∷ p ++ s) s)) [
  | inl e ↦ absurd (omega (arith, ap length (text_eq→eq _ _ e), length-append p s))
  | inr e ↦ e
]

self_suffix : (s : Text) → strip_suffix s s ≡ some []
unfolding strip_suffix
self_suffix [] = rw text_eq_refl
self_suffix (c ∷ s) = rw text_eq_refl

strip_suffix_step :
    (c : ℕ) (s suffix : Text)
    → text_eq (c ∷ s) suffix ≡ false
    → strip_suffix suffix (c ∷ s) ≡ cons_to c (strip_suffix suffix s)
unfolding strip_suffix
strip_suffix_step c s suffix h = rw h

pub strip_suffix-append : (p suffix : Text) → strip_suffix suffix (p ++ suffix) ≡ some p
strip_suffix-append [] suffix = self_suffix suffix
strip_suffix-append (c ∷ p) suffix =
    strip_suffix_step c (p ++ suffix) suffix (longer-ne c p suffix)
    ∙ ap (cons_to c) (strip_suffix-append p suffix)
