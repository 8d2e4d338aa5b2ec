-- ===== src/Protocol/Bounded/Spec.antt =====
-- What `validate_bounded_value` accepts, described without an order of checks: every node of the
-- value is within the bounds of its own kind, and no node stands more than six levels deep.
use Prim.Native.Nat.{max}
use homelab_inventory_agent.Prelude.{
  ℕ, suc, ◌+◌, ◌≤◌, false, length, is_nan, is_inf, none, ◌≡◌, ◌↔◌, refl, arith, limit-none,
  limit_ok, then_check-none, then_check_both, ◌then_check◌, reject_if-none,
}
use homelab_inventory_agent.Protocol.Value.{
  Value, null, str, float32, float64, bool, int, object, other_map, slice, nil_pointer, pointer,
  struct, unsupported, Items, nil, cons, Fields, end, field, size_items, size_fields,
}
use homelab_inventory_agent.Protocol.Bounded.{
  validate_bounded_value, validate_items, validate_fields, is_unsafe_key,
}

mutual
  pub height : Value → ℕ
  height (object fs) = height_fields fs
  height (slice vs) = height_items vs
  height (pointer v) = suc (height v)
  height (struct vs) = height_items vs
  height _ = 0

  pub height_items : Items → ℕ
  height_items nil = 0
  height_items (cons v vs) = max (suc (height v)) (height_items vs)

  pub height_fields : Fields → ℕ
  height_fields end = 0
  height_fields (field k v fs) = max (suc (height v)) (height_fields fs)

abbrev mutual
  pub NodesBounded : Value → Type 0
  NodesBounded null = Unit
  NodesBounded (str s) = length s ≤ 2048
  NodesBounded (float32 x) = (is_nan x ≡ false) × (is_inf x ≡ false)
  NodesBounded (float64 x) = (is_nan x ≡ false) × (is_inf x ≡ false)
  NodesBounded (bool b) = Unit
  NodesBounded (int n) = Unit
  NodesBounded (object fs) = (size_fields fs ≤ 128) × FieldsBounded fs
  NodesBounded (other_map n) = n ≡ 0
  NodesBounded (slice vs) = (size_items vs ≤ 1024) × ItemsBounded vs
  NodesBounded nil_pointer = Unit
  NodesBounded (pointer v) = NodesBounded v
  NodesBounded (struct vs) = ItemsBounded vs
  NodesBounded unsupported = ⊥

  pub ItemsBounded : Items → Type 0
  ItemsBounded nil = Unit
  ItemsBounded (cons v vs) = NodesBounded v × ItemsBounded vs

  pub FieldsBounded : Fields → Type 0
  FieldsBounded end = Unit
  FieldsBounded (field k v fs) = (is_unsafe_key k ≡ false) × NodesBounded v × FieldsBounded fs

mutual
  unfolding validate_bounded_value height ◌then_check◌

  sound :
      (v : Value) (d : ℕ) → validate_bounded_value v d ≡ none → (height v + d ≤ 6) × NodesBounded v
  sound null d h = ground arith
  sound (str s) d h = ground arith
  sound (float32 x) d h = ground arith
  sound (float64 x) d h = ground arith
  sound (bool b) d h = ground arith
  sound (int n) d h = ground arith
  sound (object fs) d h =
      let (deep, rest) = limit-none 6 d _ _ h in
      let (few, fields) = limit-none 128 (size_fields fs) _ _ rest in
      let (low, good) = sound_fields fs d deep fields in (low, (few, good))
  sound (other_map n) d h = ground arith
  sound (slice vs) d h =
      let (deep, rest) = limit-none 6 d _ _ h in
      let (few, items) = limit-none 1024 (size_items vs) _ _ rest in
      let (low, good) = sound_items vs d deep items in (low, (few, good))
  sound nil_pointer d h = ground arith
  sound (pointer v) d h =
      let (deep, rest) = limit-none 6 d _ _ h in
      let (low, good) = sound v (d + 1) rest in (omega arith, good)
  sound (struct vs) d h = let (deep, rest) = limit-none 6 d _ _ h in sound_items vs d deep rest
  sound unsupported d h = ground arith

  sound_items :
      (vs : Items) (d : ℕ)
      → d ≤ 6
      → validate_items vs d ≡ none
      → (height_items vs + d ≤ 6) × ItemsBounded vs
  sound_items nil d b h = (omega arith, tt)
  sound_items (cons v vs) d b h =
      let (first, rest) = then_check-none (validate_bounded_value v (d + 1)) _ h in
      let (low, good) = sound v (d + 1) first in
      let (lows, goods) = sound_items vs d b rest in (omega arith, (good, goods))

  sound_fields :
      (fs : Fields) (d : ℕ)
      → d ≤ 6
      → validate_fields fs d ≡ none
      → (height_fields fs + d ≤ 6) × FieldsBounded fs
  sound_fields end d b h = (omega arith, tt)
  sound_fields (field k v fs) d b h =
      let (safe, more) = then_check-none _ _ h in
      let (first, rest) = then_check-none (validate_bounded_value v (d + 1)) _ more in
      let (low, good) = sound v (d + 1) first in
      let (lows, goods) = sound_fields fs d b rest in
      (omega arith, (reject_if-none (is_unsafe_key k) _ safe, good, goods))

mutual
  unfolding validate_bounded_value height ◌then_check◌

  complete :
      (v : Value) (d : ℕ) → height v + d ≤ 6 → NodesBounded v → validate_bounded_value v d ≡ none
  complete null d h b = ground arith
  complete (str s) d h b = ground arith
  complete (float32 x) d h b = ground arith
  complete (float64 x) d h b = ground arith
  complete (bool b') d h b = ground arith
  complete (int n) d h b = ground arith
  complete (object fs) d h b =
      limit_ok 6 d _ _ (omega arith)
        (limit_ok 128 (size_fields fs) _ _ b.0 (complete_fields fs d h b.1))
  complete (other_map n) d h b = ground arith
  complete (slice vs) d h b =
      limit_ok 6 d _ _ (omega arith)
        (limit_ok 1024 (size_items vs) _ _ b.0 (complete_items vs d h b.1))
  complete nil_pointer d h b = ground arith
  complete (pointer v) d h b = limit_ok 6 d _ _ (omega arith) (complete v (d + 1) (omega arith) b)
  complete (struct vs) d h b = limit_ok 6 d _ _ (omega arith) (complete_items vs d h b)
  complete unsupported d h b = absurd b

  complete_items :
      (vs : Items) (d : ℕ) → height_items vs + d ≤ 6 → ItemsBounded vs → validate_items vs d ≡ none
  complete_items nil d h b = refl
  complete_items (cons v vs) d h b =
      then_check_both _ _ (complete v (d + 1) (omega arith) b.0)
        (complete_items vs d (omega arith) b.1)

  complete_fields :
      (fs : Fields) (d : ℕ)
      → height_fields fs + d ≤ 6
      → FieldsBounded fs
      → validate_fields fs d ≡ none
  complete_fields end d h b = refl
  complete_fields (field k v fs) d h b = rw b.0 (
      then_check_both _ _ (complete v (d + 1) (omega arith) b.1)
        (complete_fields fs d (omega arith) b.2))

-- A value is accepted exactly when no node stands more than six levels deep and every node is within
-- the bounds of its kind: finite floats, strings of at most 2048 bytes, objects of at most 128 fields
-- with string keys that are safe, arrays of at most 1024 values, and no unsupported type.
pub validate_bounded_value-none_iff :
    (v : Value) → (validate_bounded_value v 0 ≡ none) ↔ ((height v ≤ 6) × NodesBounded v)
validate_bounded_value-none_iff v =
    (λ h. let (low, good) = sound v 0 h in (omega arith, good), λ h. complete v 0 (omega arith) h.1)
