-- ===== src/Runtime/Delta/Loop.antt =====
-- What the loop of deltaFamily computes, key by key.
use homelab_inventory_agent.Prelude.{
  List, [], ◌∷◌, ◌++◌, Text, text_eq, text_eq→eq, Bool, true, false, Option, none, some,
  if◌then◌else◌, ◌≡◌, refl, arith, Bool-cases, Option-cases, inl, inr, ◌∙◌, ap,
}
use homelab_inventory_agent.Assoc.{get, set, get-set}
use homelab_inventory_agent.Runtime.Delta.{FamilySyncState, KeyedValue, or_empty, hash_values}

module _ {T : Type 0} where
  -- The value behind a key.
  abbrev pub current : List (KeyedValue T) → Text → Option T
  current [] k = none
  current (e ∷ es) k = if text_eq e.key k then some e.value else current es k

  -- No key occurs twice.
  abbrev pub Distinct : List (KeyedValue T) → Type 0
  Distinct [] = Unit
  Distinct (e ∷ es) = (current es e.key ≡ none) × Distinct es

  -- Each value goes by its own key.
  abbrev pub KeyedBy : (T → Text) → List (KeyedValue T) → Type 0
  KeyedBy key_of [] = Unit
  KeyedBy key_of (e ∷ es) = (key_of e.value ≡ e.key) × KeyedBy key_of es

  -- A map of the server, with the values that a report carries put in.
  abbrev pub put_all : (T → Text) → (Text → Option T) → List T → Text → Option T
  put_all key_of server [] k = server k
  put_all key_of server (v ∷ vs) k =
      put_all key_of (λ j. if text_eq (key_of v) j then some v else server j) vs k

  pub put_all-append :
      (key_of : T → Text) (server : Text → Option T) (vs : List T) (v : T) (k : Text)
      → put_all key_of server (vs ++ v ∷ []) k
        ≡ (if text_eq (key_of v) k then some v else put_all key_of server vs k)
  put_all-append key_of server [] v k = refl
  put_all-append key_of server (w ∷ vs) v k =
      put_all-append key_of (λ j. if text_eq (key_of w) j then some w else server j) vs v k

module _ {T : Type 0} (value_hash : T → Option Text) where
  abbrev pub digest_or : Option T → Option Text → Option Text
  digest_or none old = old
  digest_or (some v) old = value_hash v

  -- One round of the loop.
  pub hash_step :
      (previous : FamilySyncState) (e : KeyedValue T) (es : List (KeyedValue T))
      (next0 next : List (Text × Text)) (changed0 changed : List T)
      → hash_values value_hash previous (e ∷ es) next0 changed0 ≡ some (next, changed)
      → (d : Text) × (value_hash e.value ≡ some d)
        × (hash_values value_hash previous es (set e.key d next0) (
              if text_eq (or_empty (get previous.hashes e.key)) d
              then changed0
              else changed0 ++ e.value ∷ [])
            ≡ some (next, changed))
  unfolding hash_values
  hash_step previous e es next0 next changed0 changed h = elim (Option-cases (value_hash e.value)) [
    | inl no_hash ↦ ground (arith, rw (no_hash, hash_values) at h)
    | inr (d, some_hash) ↦ (d, some_hash, rw (some_hash, hash_values) at h)
  ]

  -- The new hashes are those of the current values.
  pub next-current :
      (previous : FamilySyncState) (es : List (KeyedValue T)) (next0 next : List (Text × Text))
      (changed0 changed : List T) (k : Text)
      → Distinct es
      → hash_values value_hash previous es next0 changed0 ≡ some (next, changed)
      → get next k ≡ digest_or (current es k) (get next0 k)
  unfolding hash_values
  next-current previous [] next0 next changed0 changed k apart h = ground arith
  next-current previous (e ∷ es) next0 next changed0 changed k (new, apart) h =
      let (d, hashed, rest) = hash_step previous e es next0 next changed0 changed h in
      let ih = next-current previous es (set e.key d next0) next _ changed k apart rest in
      elim (Bool-cases (text_eq e.key k)) [
        | inl same ↦
            let here : current es k ≡ none = rw (← text_eq→eq e.key k same) new in
            rw (same, hashed) (ih ∙ rw (here, get-set, same))
        | inr other ↦ rw other (ih ∙ rw (get-set, other))
      ]

  -- The digest of a value is the one that the state holds for its key.
  abbrev pub same_digest : FamilySyncState → Text → Option Text → Bool
  same_digest previous k none = false
  same_digest previous k (some d) = text_eq (or_empty (get previous.hashes k)) d

  abbrev pub put_if_changed : FamilySyncState → Text → Option T → Option T → Option T
  put_if_changed previous k none old = old
  put_if_changed previous k (some v) old =
      if same_digest previous k (value_hash v) then old else some v

  -- A value appended under a test, at another key.
  append_elsewhere :
      (key_of : T → Text) (server : Text → Option T) (same : Bool) (vs : List T) (v : T) (k : Text)
      → text_eq (key_of v) k ≡ false
      → put_all key_of server (if same then vs else vs ++ v ∷ []) k ≡ put_all key_of server vs k
  append_elsewhere key_of server true vs v k other = refl
  append_elsewhere key_of server false vs v k other = put_all-append key_of server vs v k ∙ rw other

  append_here :
      (key_of : T → Text) (server : Text → Option T) (same : Bool) (vs : List T) (v : T) (k : Text)
      → text_eq (key_of v) k ≡ true
      → put_all key_of server (if same then vs else vs ++ v ∷ []) k
        ≡ (if same then put_all key_of server vs k else some v)
  append_here key_of server true vs v k here = refl
  append_here key_of server false vs v k here = put_all-append key_of server vs v k ∙ rw here

  -- The changed values are the current ones whose digests differ from the old.
  pub changed-current :
      (key_of : T → Text) (server : Text → Option T) (previous : FamilySyncState)
      (es : List (KeyedValue T)) (next0 next : List (Text × Text)) (changed0 changed : List T)
      (k : Text)
      → Distinct es
      → KeyedBy key_of es
      → hash_values value_hash previous es next0 changed0 ≡ some (next, changed)
      → put_all key_of server changed k
        ≡ put_if_changed previous k (current es k) (put_all key_of server changed0 k)
  unfolding hash_values
  changed-current key_of server previous [] next0 next changed0 changed k apart keyed h =
      let e : changed0 ≡ changed = ground arith in rw e
  changed-current key_of server previous (e ∷ es) next0 next changed0 changed k (new, apart)
        (own, keyed) h =
      let (d, hashed, rest) = hash_step previous e es next0 next changed0 changed h in
      let ih =
        changed-current key_of server previous es (set e.key d next0) next _ changed k apart keyed
          rest in
      elim (Bool-cases (text_eq e.key k)) [
        | inl same ↦
            let eq : e.key ≡ k = text_eq→eq e.key k same in
            let none_left : current es k ≡ none = rw (← eq) new in
            rw (same, hashed)
              (ih
                ∙ rw none_left
                    (append_here key_of server _ changed0 e.value k (rw own same) ∙ rw eq))
        | inr other ↦ rw other (
            ih
            ∙ ap (put_if_changed previous k (current es k))
                (append_elsewhere key_of server _ changed0 e.value k (rw own other)))
      ]
