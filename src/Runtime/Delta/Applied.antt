-- ===== src/Runtime/Delta/Applied.antt =====
-- The contract of deltaFamily: what a server has after it applies the report.
use homelab_inventory_agent.Prelude.{
  ℕ, List, [], ◌∷◌, Text, is_empty, true, ◌&&◌, Option, none, some, ◌≡◌, refl, arith, Bool-cases,
  Option-cases, inl, inr, ◌∙◌, sym, ap,
}
use homelab_inventory_agent.Assoc.{get}
use homelab_inventory_agent.Protocol.Types.{StateFamily}
use homelab_inventory_agent.Runtime.Delta.{
  FamilySyncState, KeyedValue, hash_values, missing_keys, sort_texts, values_of, build_delta,
  delta_family, needs_full,
}
use homelab_inventory_agent.Runtime.Delta.Loop.{current, Distinct, KeyedBy, put_all}
use homelab_inventory_agent.Runtime.Delta.Server.{
  apply_report, take_out, or_current, put_all-values, Agrees, IsDigest, partial_current,
  next-Agrees,
}

module _ {T : Type 0} (value_hash : T → Option Text) (key_of : T → Text) where
  or_nothing : (o : Option T) → or_current o none ≡ o
  or_nothing none = refl
  or_nothing (some v) = refl

  full_current :
      (es : List (KeyedValue T)) (k : Text)
      → Distinct es
      → KeyedBy key_of es
      → put_all key_of (λ _. none) (values_of es) k ≡ current es k
  full_current es k apart keyed =
      put_all-values key_of (λ _. none) es k apart keyed ∙ or_nothing (current es k)

  nothing_sent :
      (server : Text → Option T) (removed : List Text) (changed : List T) (k : Text)
      → (is_empty changed && is_empty removed) ≡ true
      → put_all key_of (take_out removed server) changed k ≡ server k
  nothing_sent server [] [] k h = refl
  nothing_sent server (t ∷ ts) [] k h = ground arith
  nothing_sent server removed (v ∷ vs) k h = ground arith

  build-applied :
      (server : Text → Option T) (previous : FamilySyncState) (es : List (KeyedValue T)) (now : ℕ)
      (next : List (Text × Text)) (changed : List T) (k : Text)
      → put_all key_of (λ _. none) (values_of es) k ≡ current es k
      → put_all key_of (take_out (sort_texts (missing_keys previous.hashes next)) server) changed k
        ≡ current es k
      → apply_report key_of server (build_delta previous es now next changed).0 k ≡ current es k
  unfolding build_delta
  build-applied server previous es now next changed k whole part =
      elim (Bool-cases (needs_full previous now)) [
        | inl full ↦ rw full whole
        | inr update ↦
            rw update
              (elim (Bool-cases
                (is_empty changed && is_empty (sort_texts (missing_keys previous.hashes next)))) [
                  | inl nothing ↦ rw nothing (sym (nothing_sent server _ changed k nothing) ∙ part)
                  | inr something ↦ rw something part
                ])
      ]

  build-hashes :
      (previous : FamilySyncState) (es : List (KeyedValue T)) (now : ℕ) (next : List (Text × Text))
      (changed : List T)
      → (build_delta previous es now next changed).1.hashes ≡ next
  unfolding build_delta
  build-hashes previous es now next changed = elim (Bool-cases (needs_full previous now)) [
    | inl full ↦ rw full
    | inr update ↦
        rw update
          (elim (Bool-cases
            (is_empty changed && is_empty (sort_texts (missing_keys previous.hashes next)))) [
              | inl nothing ↦ rw nothing
              | inr something ↦ rw something
            ])
  ]

  -- A server whose copy agrees with the agent's digests has, after it applies a report, the agent's
  -- current values and no others, and it agrees with the new digests; so the next report finds the same
  -- state. The values have distinct keys of their own, and digests do not collide.
  pub delta_family-applied :
      (server : Text → Option T) (previous next : FamilySyncState) (es : List (KeyedValue T))
      (now : ℕ) (report : Option (StateFamily T))
      → IsDigest value_hash
      → Distinct es
      → KeyedBy key_of es
      → ((k : Text) → Agrees value_hash (get previous.hashes k) (server k))
      → delta_family value_hash previous es now ≡ some (report, next)
      → (k : Text)
      → (apply_report key_of server report k ≡ current es k)
        × Agrees value_hash (get next.hashes k) (current es k)
  unfolding delta_family
  delta_family-applied server previous next es now report digests apart keyed agrees h k =
      elim (Option-cases (hash_values value_hash previous es [] [])) [
        | inl failed ↦ ground (arith, rw failed at h)
        | inr ((hashes, changed), hashed) ↦
            let built : build_delta previous es now hashes changed ≡ (report, next) =
              ground (arith, rw hashed at h) in
            (
              ap
                    (λ (x : Option (StateFamily T) × FamilySyncState).
                      apply_report key_of server x.0 k)
                    (sym built)
                  ∙ build-applied server previous es now hashes changed k
                      (full_current es k apart keyed)
                      (partial_current value_hash key_of server previous es hashes changed k digests
                        apart keyed (agrees k) hashed),
              rw
                  (
                    ← ap (λ (x : Option (StateFamily T) × FamilySyncState). x.1.hashes) built,
                    build-hashes,
                  )
                  (next-Agrees value_hash previous es hashes changed k apart hashed),
            )
      ]
