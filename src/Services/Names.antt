-- ===== src/Services/Names.antt =====
-- What the names of services are known to be, and lists of distinct names in order.
use homelab_inventory_agent.Prelude.{
  ℕ, suc, ◌≤◌, ◌&&◌, ◌||◌, leb, List, [], ◌∷◌, Text, text_eq, length, all, map, All, is_blank,
  solid-is_blank, ||-false, strip_space, Bool, true, false, none, ◌≡◌, ap, ◌∙◌, refl, arith,
  if◌then◌else◌, inl, inr, Bool-cases,
}
use homelab_inventory_agent.Config.{is_one_of}
use homelab_inventory_agent.Distinct.{Fresh}
use homelab_inventory_agent.Update.Version.{text_lt}
use homelab_inventory_agent.Update.Version.Precedence.{text_lt_flip}
use homelab_inventory_agent.Services.{is_alphanumeric, is_name_byte, is_service_name}

-- sort.Slice by less, on names that are all different.
unfoldable pub insert_by_name : {A : Type 0} → (A → Text) → A → List A → List A
insert_by_name name a [] = a ∷ []
insert_by_name name a (b ∷ bs) =
    let rest = insert_by_name name a bs in
    if text_lt (name b) (name a) then b ∷ rest else a ∷ b ∷ bs

unfoldable pub sort_by_name : {A : Type 0} → (A → Text) → List A → List A
sort_by_name name [] = []
sort_by_name name (a ∷ rest) = insert_by_name name a (sort_by_name name rest)

three_true : (a b c : Bool) → (a && b && c) ≡ true → (a ≡ true) × (b ≡ true) × (c ≡ true)
three_true a b c h = ground arith

pub is_service_name-length : (s : Text) → is_service_name s ≡ true → length s ≤ 256
unfolding is_service_name
is_service_name-length [] h = ground (arith, h)
is_service_name-length (c ∷ s) h =
    let (_, _, short) =
      three_true (is_alphanumeric c) (all is_name_byte s) (leb (length s) 255) h in
    ground (arith, short)

alphanumeric-solid : (c : ℕ) (s : Text) → is_alphanumeric c ≡ true → strip_space (c ∷ s) ≡ none
unfolding strip_space
alphanumeric-solid c [] h = ground (arith, h)
alphanumeric-solid c (d ∷ []) h = ground (arith, h)
alphanumeric-solid c (d ∷ e ∷ s) h = ground (arith, h)

pub is_service_name-blank : (s : Text) → is_service_name s ≡ true → is_blank s ≡ false
unfolding is_service_name
is_service_name-blank [] h = ground (arith, h)
is_service_name-blank (c ∷ s) h =
    let (head, _, _) = three_true (is_alphanumeric c) (all is_name_byte s) (leb (length s) 255) h in
    solid-is_blank c s (alphanumeric-solid c s head)

abbrev Before : Text → List Text → Type 0
Before t [] = Unit
Before t (u ∷ us) = text_lt t u ≡ true

-- Strictly increasing names, so that no name occurs twice.
abbrev pub Increasing : List Text → Type 0
Increasing [] = Unit
Increasing (t ∷ ts) = Before t ts × Increasing ts

or_swap : (a b c : Bool) → (a || (b || c)) ≡ (b || (a || c))
or_swap a b c = ground arith

unequal-lt : (t u : Text) → text_eq t u ≡ false → text_lt u t ≡ false → text_lt t u ≡ true
unequal-lt t u ne h = ground (arith, text_lt_flip t u ne)

module _ {A : Type 0} (name : A → Text) where
  abbrev names : List A → List Text
  names = map name

  insert-Before :
      (t : Text) (a : A) (bs : List A)
      → Before t (names bs)
      → text_lt t (name a) ≡ true
      → Before t (names (insert_by_name name a bs))
  unfolding insert_by_name
  insert-Before t a [] h lt = lt
  insert-Before t a (b ∷ bs) h lt = elim (Bool-cases (text_lt (name b) (name a))) [
    | inl e ↦ rw e h
    | inr e ↦ rw e lt
  ]

  insert-Increasing :
      (a : A) (bs : List A)
      → is_one_of (name a) (names bs) ≡ false
      → Increasing (names bs)
      → Increasing (names (insert_by_name name a bs))
  unfolding insert_by_name is_one_of
  insert-Increasing a [] h up = (tt, tt)
  insert-Increasing a (b ∷ bs) h up =
      let (ne, fresh) = ||-false _ _ h in
      elim (Bool-cases (text_lt (name b) (name a))) [
        | inl e ↦ rw e (insert-Before (name b) a bs up.0 e, insert-Increasing a bs fresh up.1)
        | inr e ↦ rw e (unequal-lt (name a) (name b) ne e, up)
      ]

  insert-is_one_of :
      (t : Text) (a : A) (bs : List A)
      → is_one_of t (names (insert_by_name name a bs))
        ≡ (text_eq t (name a) || is_one_of t (names bs))
  unfolding insert_by_name is_one_of
  insert-is_one_of t a [] = refl
  insert-is_one_of t a (b ∷ bs) = elim (Bool-cases (text_lt (name b) (name a))) [
    | inl e ↦ rw (e, insert-is_one_of t a bs) (or_swap (text_eq t (name b)) (text_eq t (name a)) _)
    | inr e ↦ rw e refl
  ]

  sort-is_one_of :
      (t : Text) (bs : List A) → is_one_of t (names (sort_by_name name bs)) ≡ is_one_of t (names bs)
  unfolding sort_by_name is_one_of
  sort-is_one_of t [] = refl
  sort-is_one_of t (b ∷ bs) =
      insert-is_one_of t b (sort_by_name name bs) ∙ rw (sort-is_one_of t bs) refl

  pub insert-All :
      (P : A → Type 0) (a : A) (bs : List A) → P a → All P bs → All P (insert_by_name name a bs)
  unfolding insert_by_name
  insert-All P a [] h hs = (h, tt)
  insert-All P a (b ∷ bs) h hs = elim (Bool-cases (text_lt (name b) (name a))) [
    | inl e ↦ rw e (hs.0, insert-All P a bs h hs.1)
    | inr e ↦ rw e (h, hs)
  ]

  pub sort-All : (P : A → Type 0) (bs : List A) → All P bs → All P (sort_by_name name bs)
  unfolding sort_by_name
  sort-All P [] h = tt
  sort-All P (b ∷ bs) (h, hs) = insert-All P b (sort_by_name name bs) h (sort-All P bs hs)

  insert-length : (a : A) (bs : List A) → length (insert_by_name name a bs) ≡ suc (length bs)
  unfolding insert_by_name
  insert-length a [] = refl
  insert-length a (b ∷ bs) = elim (Bool-cases (text_lt (name b) (name a))) [
    | inl e ↦ rw (e, insert-length a bs) refl
    | inr e ↦ rw e refl
  ]

  pub sort-length : (bs : List A) → length (sort_by_name name bs) ≡ length bs
  unfolding sort_by_name
  sort-length [] = refl
  sort-length (b ∷ bs) = insert-length b (sort_by_name name bs) ∙ ap suc (sort-length bs)

  -- Names that are all different, sorted, increase strictly.
  pub sort-Increasing : (bs : List A) → Fresh (names bs) → Increasing (names (sort_by_name name bs))
  unfolding sort_by_name
  sort-Increasing [] h = tt
  sort-Increasing (b ∷ bs) (fresh, h) =
      insert-Increasing b (sort_by_name name bs) (sort-is_one_of (name b) bs ∙ fresh)
        (sort-Increasing bs h)
