-- ===== src/Distinct.antt =====
-- Lists of texts in which none stands twice, and where an element stands in a list.
use homelab_inventory_agent.Prelude.{
  List, [], ◌∷◌, ◌++◌, Text, text_eq, text_eq_iff, All, false, ◌≡◌, refl, ap, ◌∙◌, arith,
}
use homelab_inventory_agent.Config.{is_one_of}

-- No text of the list is among those behind it.
abbrev pub Fresh : List Text → Type 0
Fresh [] = Unit
Fresh (t ∷ ts) = (is_one_of t ts ≡ false) × Fresh ts

other-false :
    (t u : Text) (seen : List Text)
    → is_one_of t (u ∷ seen) ≡ false
    → (text_eq u t ≡ false) × (is_one_of t seen ≡ false)
unfolding is_one_of
other-false t u seen h = ground (arith, h, text_eq_iff t u, text_eq_iff u t)

pub behind-fresh :
    (u : Text) (seen ts : List Text)
    → All (λ t. is_one_of t (u ∷ seen) ≡ false) ts
    → (is_one_of u ts ≡ false) × All (λ t. is_one_of t seen ≡ false) ts
unfolding is_one_of
behind-fresh u seen [] h = (refl, tt)
behind-fresh u seen (t ∷ ts) (h, hs) =
    let (ne, unseen) = other-false t u seen h in
    let (rest, all_unseen) = behind-fresh u seen ts hs in (rw (ne, rest) refl, (unseen, all_unseen))

module _ {A : Type 0} where
  -- `a` stands in the list, behind `before`.
  abbrev pub Occurs : A → List A → Type 0
  Occurs a items = (before : List A) × (after : List A) × (before ++ (a ∷ after) ≡ items)

  pub append_assoc : (xs ys zs : List A) → (xs ++ ys) ++ zs ≡ xs ++ (ys ++ zs)
  append_assoc [] ys zs = refl
  append_assoc (x ∷ xs) ys zs = ap (λ t. x ∷ t) (append_assoc xs ys zs)

  pub behind-Occurs : (xs ys : List A) (a : A) → Occurs a ys → Occurs a (xs ++ ys)
  behind-Occurs xs ys a (before, after, e) =
      (xs ++ before, after, append_assoc xs before (a ∷ after) ∙ ap (λ t. xs ++ t) e)

  next-Occurs : (x a : A) (items : List A) → Occurs a items → Occurs a (x ∷ items)
  next-Occurs x a items (before, after, e) = (x ∷ before, after, ap (λ t. x ∷ t) e)

  weaker-All :
      (P Q : A → Type 0) (items : List A) → ((a : A) → P a → Q a) → All P items → All Q items
  weaker-All P Q [] f h = tt
  weaker-All P Q (a ∷ items) f (h, hs) = (f a h, weaker-All P Q items f hs)

  pub All-Occurs : (items : List A) → All (λ a. Occurs a items) items
  All-Occurs [] = tt
  All-Occurs (a ∷ items) = (
    ([], items, refl),
    weaker-All (λ b. Occurs b items) (λ b. Occurs b (a ∷ items)) items
        (λ b h. next-Occurs a b items h) (All-Occurs items),
  )
