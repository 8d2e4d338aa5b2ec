-- ===== src/Update/Version/Precedence.antt =====
-- internal/agentupdate/version.go: the comparison of parsed versions as an order.
use homelab_inventory_agent.Prelude.{
  List, [], ◌∷◌, Text, text_eq, text_eq→eq, text_eq_refl, true, false, Option, none, some, ℤ,
  if◌then◌else◌, ◌≡◌, ◌≢◌, ◌↔◌, refl, arith, Bool-cases, inl, inr, ap, sym, ◌∙◌,
}
use homelab_inventory_agent.Update.Version.{
  Version, Order, less, equal, greater, int_lt, text_lt, by_kind, atoi, compare_identifier,
  compare_identifiers, compare_pre, compare_parsed,
}

abbrev pub flip : Order → Order
flip less = greater
flip equal = equal
flip greater = less

by_kind-ne-equal : (x y : Option ℤ) (l r : Text) → by_kind x y l r ≢ equal
by_kind-ne-equal x y l r = λ h. ground (arith, h)

identifiers_equal : (ls rs : List Text) → compare_identifiers ls rs ≡ equal → ls ≡ rs
unfolding compare_identifiers compare_identifier
identifiers_equal [] [] h = refl
identifiers_equal [] (r ∷ rs) h = ground arith
identifiers_equal (l ∷ ls) [] h = ground arith
identifiers_equal (l ∷ ls) (r ∷ rs) h = elim (Bool-cases (text_eq l r)) [
  | inl same ↦
      let rest : ls ≡ rs = identifiers_equal ls rs (rw same at h) in
      let first : l ≡ r = text_eq→eq l r same in cc
  | inr other ↦ absurd (by_kind-ne-equal (atoi l) (atoi r) l r (rw other at h))
]

identifiers_refl : (ls : List Text) → compare_identifiers ls ls ≡ equal
unfolding compare_identifiers
identifiers_refl [] = refl
identifiers_refl (l ∷ ls) = rw text_eq_refl (identifiers_refl ls)

pre_equal : (ls rs : List Text) → compare_pre ls rs ≡ equal → ls ≡ rs
unfolding compare_pre
pre_equal [] [] h = refl
pre_equal [] (r ∷ rs) h = ground arith
pre_equal (l ∷ ls) [] h = ground arith
pre_equal (l ∷ ls) (r ∷ rs) h = identifiers_equal (l ∷ ls) (r ∷ rs) h

pre_refl : (ls : List Text) → compare_pre ls ls ≡ equal
unfolding compare_pre
pre_refl [] = refl
pre_refl (l ∷ ls) = identifiers_refl (l ∷ ls)

-- Two parsed versions compare equal exactly when they are the same: the order never takes two
-- different versions for one.
pub compare_parsed-equal_iff : (a b : Version) → (compare_parsed a b ≡ equal) ↔ (a ≡ b)
unfolding compare_parsed
compare_parsed-equal_iff a b =
    (λ h. ground (arith, pre_equal a.pre b.pre), λ e. rw e (ground (arith, pre_refl b.pre)))

true≢ : true ≡ false → ⊥
true≢ h = ground arith

pub text_lt_flip :
    (s t : Text) → text_eq s t ≡ false → text_lt t s ≡ (if text_lt s t then false else true)
unfolding text_lt text_eq
text_lt_flip [] [] h = ground arith
text_lt_flip [] (d ∷ t) h = refl
text_lt_flip (c ∷ s) [] h = refl
text_lt_flip (c ∷ s) (d ∷ t) h = ground (arith, text_lt_flip s t)

int_lt_flip : (x y : ℤ) → x ≢ y → int_lt y x ≡ (if int_lt x y then false else true)
int_lt_flip x y h = ground arith

-- Numbers of distinct texts are distinct: no leading zeros, no "-0".
abbrev pub TellsApart : Text → Text → Type 0
TellsApart l r = (x : ℤ) → atoi l ≡ some x → atoi r ≡ some x → l ≡ r

by_kind-flip :
    (x y : Option ℤ) (l r : Text)
    → text_eq l r ≡ false
    → ((z : ℤ) → x ≡ some z → y ≡ some z → l ≡ r)
    → by_kind y x r l ≡ flip (by_kind x y l r)
by_kind-flip (some x) (some y) l r h apart =
    ground (arith, int_lt_flip x y (λ e. distinct (apart x refl (ap some (sym e)))))
  where
    distinct : l ≡ r → ⊥
    distinct e = true≢ (sym (text_eq_refl r) ∙ (rw e at h))
by_kind-flip (some x) none l r h apart = refl
by_kind-flip none (some y) l r h apart = refl
by_kind-flip none none l r h apart = ground (arith, text_lt_flip l r)

-- The identifiers that a comparison of two lists pairs up are told apart by their numbers.
abbrev pub PairsApart : List Text → List Text → Type 0
PairsApart (l ∷ ls) (r ∷ rs) = TellsApart l r × PairsApart ls rs
PairsApart _ _ = Unit

text_eq_sym : (s t : Text) → text_eq t s ≡ text_eq s t
unfolding text_eq
text_eq_sym [] [] = refl
text_eq_sym [] (d ∷ t) = refl
text_eq_sym (c ∷ s) [] = refl
text_eq_sym (c ∷ s) (d ∷ t) = ground (arith, text_eq_sym s t)

identifiers_flip :
    (ls rs : List Text)
    → PairsApart ls rs
    → compare_identifiers rs ls ≡ flip (compare_identifiers ls rs)
unfolding compare_identifiers compare_identifier
identifiers_flip [] [] h = refl
identifiers_flip [] (r ∷ rs) h = refl
identifiers_flip (l ∷ ls) [] h = refl
identifiers_flip (l ∷ ls) (r ∷ rs) (apart, h) = elim (Bool-cases (text_eq l r)) [
  | inl same ↦ rw (text_eq_sym l r, same) (identifiers_flip ls rs h)
  | inr other ↦ rw (text_eq_sym l r, other) (by_kind-flip (atoi l) (atoi r) l r other apart)
]

pre_flip : (ls rs : List Text) → PairsApart ls rs → compare_pre rs ls ≡ flip (compare_pre ls rs)
unfolding compare_pre
pre_flip [] [] h = refl
pre_flip [] (r ∷ rs) h = refl
pre_flip (l ∷ ls) [] h = refl
pre_flip (l ∷ ls) (r ∷ rs) h = identifiers_flip (l ∷ ls) (r ∷ rs) h

-- Swapping two versions turns the order round, if the identifiers that are paired up differ as numbers
-- wherever they differ as texts.
pub compare_parsed-flip :
    (a b : Version) → PairsApart a.pre b.pre → compare_parsed b a ≡ flip (compare_parsed a b)
unfolding compare_parsed
compare_parsed-flip a b h = ground (arith, pre_flip a.pre b.pre h)
