-- ===== src/Assoc.antt =====
-- Go maps with string keys, as association lists.
use homelab_inventory_agent.Prelude.{
  List, [], ◌∷◌, Text, text_eq, text_eq→eq, sym, text_eq_iff, Option, none, some, if◌then◌else◌,
  ◌≡◌, arith, All, Bool-cases, inl, inr,
}

module _ {V : Type 0} where
  unfoldable pub get : List (Text × V) → Text → Option V
  get [] k = none
  get ((j, v) ∷ m) k = let rest = get m k in if text_eq j k then some v else rest

  unfoldable pub without : Text → List (Text × V) → List (Text × V)
  without k [] = []
  without k ((j, v) ∷ m) = let rest = without k m in if text_eq j k then rest else (j, v) ∷ rest

  -- m[k] = v
  unfoldable pub set : Text → V → List (Text × V) → List (Text × V)
  set k v m = (k, v) ∷ without k m

  pub get-without :
      (k j : Text) (m : List (Text × V))
      → get (without k m) j ≡ (if text_eq k j then none else get m j)
  unfolding get without
  get-without k j [] = ground arith
  get-without k j ((i, v) ∷ m) =
      ground (arith, get-without k j m, text_eq_iff i k, text_eq_iff i j, text_eq_iff k j)

  pub get-set :
      (k j : Text) (v : V) (m : List (Text × V))
      → get (set k v m) j ≡ (if text_eq k j then some v else get m j)
  unfolding get set
  get-set k j v m = ground (arith, get-without k j m)

  -- What holds of every entry, of the entry that is set, and of a value that is found.
  without-All :
      (P : Text × V → Type 0) (k : Text) (m : List (Text × V)) → All P m → All P (without k m)
  unfolding without
  without-All P k [] h = tt
  without-All P k ((j, v) ∷ m) (h, hs) = elim (Bool-cases (text_eq j k)) [
    | inl e ↦ rw e (without-All P k m hs)
    | inr e ↦ rw e (h, without-All P k m hs)
  ]

  pub set-All :
      (P : Text × V → Type 0) (k : Text) (v : V) (m : List (Text × V))
      → P (k, v)
      → All P m
      → All P (set k v m)
  unfolding set
  set-All P k v m h hs = (h, without-All P k m hs)

  abbrev pub Found : (V → Type 0) → Option V → Type 0
  Found Q none = Unit
  Found Q (some v) = Q v

  pub get-All :
      (Q : V → Type 0) (k : Text) (m : List (Text × V))
      → All (λ entry. Q entry.1) m
      → Found Q (get m k)
  unfolding get
  get-All Q k [] h = tt
  get-All Q k ((j, v) ∷ m) (h, hs) = elim (Bool-cases (text_eq j k)) [
    | inl e ↦ rw e h
    | inr e ↦ rw e (get-All Q k m hs)
  ]

  -- A value that is found satisfies, with its key, what all entries do.
  pub get-Keyed :
      (P : Text → V → Type 0) (k : Text) (m : List (Text × V))
      → All (λ entry. P entry.0 entry.1) m
      → Found (P k) (get m k)
  unfolding get
  get-Keyed P k [] h = tt
  get-Keyed P k ((j, v) ∷ m) (h, hs) = elim (Bool-cases (text_eq j k)) [
    | inl e ↦ rw (e, sym (text_eq→eq j k e)) h
    | inr e ↦ rw e (get-Keyed P k m hs)
  ]
