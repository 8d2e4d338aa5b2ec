-- ===== src/Examples/Delta.antt =====
-- A report of a state family at a concrete state.
use homelab_inventory_agent.Prelude.{
  ℕ, List, [], ◌∷◌, Text, text_eq, false, Option, none, some, ◌≡◌, refl, arith, inl, inr,
  Bool-cases, if◌then◌else◌,
}
use homelab_inventory_agent.Assoc.{get, set, without}
use homelab_inventory_agent.Protocol.Types.{StateFamily}
use homelab_inventory_agent.Runtime.Delta.{
  FamilySyncState, KeyedValue, delta_family, build_delta, hash_values, needs_full, missing_keys,
  sort_texts,
}
use homelab_inventory_agent.Runtime.Delta.Loop.{current, Distinct}
use homelab_inventory_agent.Runtime.Delta.Server.{apply_report, Agrees, IsDigest}
use homelab_inventory_agent.Runtime.Delta.Applied.{delta_family-applied}

abbrev digest : ℕ → Option Text
digest n = some (1 ∷ n ∷ [])

abbrev key_of : ℕ → Text
key_of n = n ∷ []

abbrev keyed : ℕ → KeyedValue ℕ
keyed n = record { key = n ∷ []; value = n }

-- 5 went, 6 stays, 7 is new.
abbrev before : FamilySyncState
before = record {
  revision = 1;
  hashes = (5 ∷ [], 1 ∷ 5 ∷ []) ∷ (6 ∷ [], 1 ∷ 6 ∷ []) ∷ [];
  last_full_at = 1;
}

abbrev values : List (KeyedValue ℕ)
values = keyed 6 ∷ keyed 7 ∷ []

abbrev server : Text → Option ℕ
server k = if text_eq (5 ∷ []) k then some 5 else if text_eq (6 ∷ []) k then some 6 else none

digest-IsDigest : IsDigest digest
digest-IsDigest = record {
  injective = λ v w d e f. ground (arith, e, f);
  not_empty = λ v e. ground (arith, e);
}

agrees : (k : Text) → Agrees digest (get before.hashes k) (server k)
unfolding get
agrees k = elim (Bool-cases (text_eq (5 ∷ []) k)) [
  | inl five ↦ rw five refl
  | inr other ↦ rw other (elim (Bool-cases (text_eq (6 ∷ []) k)) [
    | inl six ↦ rw six refl
    | inr none_of ↦ rw none_of tt
  ])
]

apart : Distinct values
unfolding text_eq
apart = (refl, (refl, tt))

abbrev report : Option (StateFamily ℕ)
report =
    some (record { revision = 2; full = false; changed = 7 ∷ []; removed = some ((5 ∷ []) ∷ []) })

abbrev after : FamilySyncState
after = record {
  revision = 2;
  hashes = (7 ∷ [], 1 ∷ 7 ∷ []) ∷ (6 ∷ [], 1 ∷ 6 ∷ []) ∷ [];
  last_full_at = 1;
}

reported : delta_family digest before values 2 ≡ some (report, after)
unfolding delta_family build_delta hash_values needs_full missing_keys sort_texts get set without
    text_eq
reported = refl

delta_family-applied_example :
    (apply_report key_of server report (7 ∷ []) ≡ current values (7 ∷ []))
    × Agrees digest (get after.hashes (7 ∷ [])) (current values (7 ∷ []))
delta_family-applied_example =
    delta_family-applied digest key_of server before after values 2 report digest-IsDigest apart
      (refl, (refl, tt)) agrees reported (7 ∷ [])
