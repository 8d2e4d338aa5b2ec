-- ===== src/Runtime/Delta/Server.antt =====
-- A server's copy of a state family, and what a report does to it.
use homelab_inventory_agent.Prelude.{
  List, [], ◌∷◌, Text, text_eq, text_eq→eq, Bool, true, false, not, ◌&&◌, ◌||◌, Option, none, some,
  if◌then◌else◌, ◌≡◌, ◌≢◌, refl, arith, Bool-cases, inl, inr, ◌∙◌, sym, ap,
}
use homelab_inventory_agent.Assoc.{get, set}
use homelab_inventory_agent.Protocol.Types.{StateFamily}
use homelab_inventory_agent.Runtime.Delta.{
  FamilySyncState, KeyedValue, or_empty, hash_values, has, missing_keys, sort_texts, insert_text,
  values_of,
}
use homelab_inventory_agent.Runtime.Delta.Loop.{
  current, Distinct, KeyedBy, put_all, digest_or, next-current, changed-current, put_if_changed,
  hash_step,
}

abbrev pub member : List Text → Text → Bool
member [] k = false
member (t ∷ ts) k = text_eq t k || member ts k

member-insert :
    (t : Text) (ts : List Text) (k : Text)
    → member (insert_text t ts) k ≡ (text_eq t k || member ts k)
unfolding insert_text
member-insert t [] k = refl
member-insert t (u ∷ us) k = ground (arith, member-insert t us k)

member-sort : (ts : List Text) (k : Text) → member (sort_texts ts) k ≡ member ts k
unfolding sort_texts
member-sort [] k = refl
member-sort (t ∷ ts) k = rw member-insert (ap (λ b. text_eq t k || b) (member-sort ts k))

member-missing :
    (old next : List (Text × Text)) (k : Text)
    → member (missing_keys old next) k ≡ (has (get old k) && not (has (get next k)))
unfolding missing_keys get
member-missing [] next k = refl
member-missing ((j, d) ∷ old) next k = ground (arith, member-missing old next k, text_eq→eq j k)

abbrev pub or_no_keys : Option (List Text) → List Text
or_no_keys none = []
or_no_keys (some ts) = ts

module _ {T : Type 0} where
  abbrev pub take_out : List Text → (Text → Option T) → Text → Option T
  take_out removed server k = if member removed k then none else server k

  -- The server's copy after a report: replaced by a full one, updated by another.
  abbrev pub apply_report :
      (T → Text) → (Text → Option T) → Option (StateFamily T) → Text → Option T
  apply_report key_of server none = server
  apply_report key_of server (some f) =
      if f.full
      then put_all key_of (λ _. none) f.changed
      else put_all key_of (take_out (or_no_keys f.removed) server) f.changed

  abbrev pub or_current : Option T → Option T → Option T
  or_current none old = old
  or_current (some v) old = some v

  pub put_all-values :
      (key_of : T → Text) (server : Text → Option T) (es : List (KeyedValue T)) (k : Text)
      → Distinct es
      → KeyedBy key_of es
      → put_all key_of server (values_of es) k ≡ or_current (current es k) (server k)
  unfolding values_of
  put_all-values key_of server [] k apart keyed = refl
  put_all-values key_of server (e ∷ es) k (new, apart) (own, keyed) =
      let ih =
        put_all-values key_of (λ j. if text_eq (key_of e.value) j then some e.value else server j)
          es k apart keyed in
      elim (Bool-cases (text_eq e.key k)) [
        | inl same ↦
            let none_left : current es k ≡ none = rw (← text_eq→eq e.key k same) new in
            rw same (ih ∙ rw (none_left, own, same))
        | inr other ↦ rw other (ih ∙ rw (own, other))
      ]

module _ {T : Type 0} (value_hash : T → Option Text) where
  -- A digest for each value that the server holds, and none else.
  abbrev pub Agrees : Option Text → Option T → Type 0
  Agrees none none = Unit
  Agrees (some d) (some v) = value_hash v ≡ some d
  Agrees _ _ = ⊥

  -- What SHA-256 promises of the digests in use: no two values share one, and none is empty.
  pub record IsDigest : Type 0 where
    pub injective : (v w : T) (d : Text) → value_hash v ≡ some d → value_hash w ≡ some d → v ≡ w
    pub not_empty : (v : T) → value_hash v ≢ some []

  hashed_current :
      (previous : FamilySyncState) (es : List (KeyedValue T)) (next0 next : List (Text × Text))
      (changed0 changed : List T) (k : Text) (v : T)
      → hash_values value_hash previous es next0 changed0 ≡ some (next, changed)
      → current es k ≡ some v
      → (d : Text) × (value_hash v ≡ some d)
  hashed_current previous [] next0 next changed0 changed k v h c = ground arith
  hashed_current previous (e ∷ es) next0 next changed0 changed k v h c =
      let (d, hashed, rest) = hash_step value_hash previous e es next0 next changed0 changed h in
      elim (Bool-cases (text_eq e.key k)) [
        | inl same ↦
            let here : e.value ≡ v = ground (arith, rw same at c) in (d, rw (← here) hashed)
        | inr other ↦
            hashed_current previous es (set e.key d next0) next _ changed k v rest (rw other at c)
      ]

  -- The digest of a value that did not change stands for the value that the server has.
  unchanged_value :
      (old : Option Text) (held : Option T) (v : T) (d : Text)
      → IsDigest
      → Agrees old held
      → value_hash v ≡ some d
      → text_eq (or_empty old) d ≡ true
      → held ≡ some v
  unchanged_value none none v d digests a h e =
      absurd (digests.not_empty v (h ∙ ap some (sym (text_eq→eq [] d e))))
  unchanged_value none (some w) v d digests a h e = absurd a
  unchanged_value (some c) none v d digests a h e = absurd a
  unchanged_value (some c) (some w) v d digests a h e =
      ap some (digests.injective w v d (rw (text_eq→eq c d e) at a) h)

  absent_value :
      (old : Option Text) (held : Option T) → Agrees old held → has old ≡ false → held ≡ none
  absent_value none none a h = refl
  absent_value none (some w) a h = absurd a
  absent_value (some c) held a h = ground arith

  partial_value :
      (previous : FamilySyncState) (k : Text) (cur held : Option T) (gone : Bool)
      → IsDigest
      → Agrees (get previous.hashes k) held
      → ((v : T) → cur ≡ some v → (d : Text) × (value_hash v ≡ some d))
      → gone ≡ (has (get previous.hashes k) && not (has (digest_or value_hash cur none)))
      → put_if_changed value_hash previous k cur (if gone then none else held) ≡ cur
  partial_value previous k none held gone digests a hashed g = elim (Bool-cases gone) [
    | inl out ↦ rw out
    | inr still ↦ rw still (absent_value (get previous.hashes k) held a (ground arith))
  ]
  partial_value previous k (some v) held gone digests a hashed g =
      let (d, h) = hashed v refl in
      elim (Bool-cases (text_eq (or_empty (get previous.hashes k)) d)) [
        | inl same ↦
            let still : gone ≡ false = g ∙ rw h (ground arith) in
            rw (h, same, still) (unchanged_value (get previous.hashes k) held v d digests a h same)
        | inr other ↦ rw (h, other)
      ]

  -- An update, as the loop and the removed keys give it.
  pub partial_current :
      (key_of : T → Text) (server : Text → Option T) (previous : FamilySyncState)
      (es : List (KeyedValue T)) (next : List (Text × Text)) (changed : List T) (k : Text)
      → IsDigest
      → Distinct es
      → KeyedBy key_of es
      → Agrees (get previous.hashes k) (server k)
      → hash_values value_hash previous es [] [] ≡ some (next, changed)
      → put_all key_of (take_out (sort_texts (missing_keys previous.hashes next)) server) changed k
        ≡ current es k
  unfolding get
  partial_current key_of server previous es next changed k digests apart keyed agrees h =
      changed-current value_hash key_of _ previous es [] next [] changed k apart keyed h
      ∙ partial_value previous k (current es k) (server k) _ digests agrees
          (λ v c. hashed_current previous es [] next [] changed k v h c)
          (member-sort (missing_keys previous.hashes next) k
            ∙ member-missing previous.hashes next k
            ∙ ap (λ o. has (get previous.hashes k) && not (has o))
                (next-current value_hash previous es [] next [] changed k apart h))

  pub next-Agrees :
      (previous : FamilySyncState) (es : List (KeyedValue T)) (next : List (Text × Text))
      (changed : List T) (k : Text)
      → Distinct es
      → hash_values value_hash previous es [] [] ≡ some (next, changed)
      → Agrees (get next k) (current es k)
  unfolding get
  next-Agrees previous es next changed k apart h =
      rw (next-current value_hash previous es [] next [] changed k apart h)
        (go (current es k) (λ v c. hashed_current previous es [] next [] changed k v h c))
    where
      go :
          (cur : Option T)
          → ((v : T) → cur ≡ some v → (d : Text) × (value_hash v ≡ some d))
          → Agrees (digest_or value_hash cur none) cur
      go none hashed = tt
      go (some v) hashed = let (d, e) = hashed v refl in rw e e
