-- ===== src/Protocol/Bounded.antt =====
-- protocol/v1/models.go, validateBoundedValue: the bounds on values that come from collectors.
pub mod Spec
use homelab_inventory_agent.Prelude.{
  ℕ, suc, ◌+◌, ltb, ◌||◌, Bool, Text, codes, length, text_eq, is_nan, is_inf, Option, none, some,
  reject_if, ◌then_check◌, if◌then◌else◌,
}
use homelab_inventory_agent.Protocol.Value.{
  Value, null, str, float32, float64, bool, int, object, other_map, slice, nil_pointer, pointer,
  struct, unsupported, Items, nil, cons, Fields, end, field, size_items, size_fields,
}

pub data ValueError : Type 0 where
  nested_too_deeply string_too_long nonfinite_number too_many_fields : ValueError
  keys_not_strings unsafe_key too_many_values unsupported_type : ValueError

unfoldable pub is_unsafe_key : Text → Bool
is_unsafe_key k =
    text_eq k (codes "__proto__")
    || text_eq k (codes "constructor")
    || text_eq k (codes "prototype")

-- The depth is tested before anything else, null included.
unfoldable mutual
  pub validate_bounded_value : Value → ℕ → Option ValueError
  validate_bounded_value null depth = reject_if (ltb 6 depth) nested_too_deeply
  validate_bounded_value (str s) depth =
      reject_if (ltb 6 depth) nested_too_deeply
      then_check reject_if (ltb 2048 (length s)) string_too_long
  validate_bounded_value (float32 x) depth =
      reject_if (ltb 6 depth) nested_too_deeply
      then_check reject_if (is_nan x || is_inf x) nonfinite_number
  validate_bounded_value (float64 x) depth =
      reject_if (ltb 6 depth) nested_too_deeply
      then_check reject_if (is_nan x || is_inf x) nonfinite_number
  validate_bounded_value (bool b) depth = reject_if (ltb 6 depth) nested_too_deeply
  validate_bounded_value (int n) depth = reject_if (ltb 6 depth) nested_too_deeply
  validate_bounded_value (object fs) depth =
      reject_if (ltb 6 depth) nested_too_deeply
      then_check reject_if (ltb 128 (size_fields fs)) too_many_fields
      then_check validate_fields fs depth
  validate_bounded_value (other_map n) depth =
      reject_if (ltb 6 depth) nested_too_deeply
      then_check reject_if (ltb 128 n) too_many_fields
      then_check reject_if (ltb 0 n) keys_not_strings
  validate_bounded_value (slice vs) depth =
      reject_if (ltb 6 depth) nested_too_deeply
      then_check reject_if (ltb 1024 (size_items vs)) too_many_values
      then_check validate_items vs depth
  validate_bounded_value nil_pointer depth = reject_if (ltb 6 depth) nested_too_deeply
  validate_bounded_value (pointer v) depth =
      reject_if (ltb 6 depth) nested_too_deeply then_check validate_bounded_value v (depth + 1)
  validate_bounded_value (struct vs) depth =
      reject_if (ltb 6 depth) nested_too_deeply then_check validate_items vs depth
  validate_bounded_value unsupported depth =
      reject_if (ltb 6 depth) nested_too_deeply then_check some unsupported_type

  pub validate_items : Items → ℕ → Option ValueError
  validate_items nil depth = none
  validate_items (cons v vs) depth =
      validate_bounded_value v (depth + 1) then_check validate_items vs depth

  pub validate_fields : Fields → ℕ → Option ValueError
  validate_fields end depth = none
  validate_fields (field k v fs) depth =
      reject_if (is_unsafe_key k) unsafe_key
      then_check validate_bounded_value v (depth + 1)
      then_check validate_fields fs depth
