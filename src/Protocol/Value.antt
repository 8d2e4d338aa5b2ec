-- ===== src/Protocol/Value.antt =====
-- protocol/v1/models.go: `any` values as `validateBoundedValue` tells them apart by reflection.
use homelab_inventory_agent.Prelude.{
  ℕ, suc, List, [], ◌∷◌, Text, ℤ, Float, Bool, Option, none, some, text_eq, if◌then◌else◌,
}

-- float32 is held as the float64 that `float64(typed)` gives, which is exact; every integer kind is
-- `int`; `struct` holds the exported fields; a map whose keys are not strings has its size only.
mutual
  pub data Value : Type 0 where
    null : Value
    str : Text → Value
    float32 : Float → Value
    float64 : Float → Value
    bool : Bool → Value
    int : ℤ → Value
    object : Fields → Value
    other_map : ℕ → Value
    slice : Items → Value
    nil_pointer : Value
    pointer : Value → Value
    struct : Items → Value
    unsupported : Value

  pub data Items : Type 0 where
    nil : Items
    cons : Value → Items → Items

  pub data Fields : Type 0 where
    end : Fields
    field : Text → Value → Fields → Fields

abbrev pub size_items : Items → ℕ
size_items nil = 0
size_items (cons v vs) = suc (size_items vs)

abbrev pub size_fields : Fields → ℕ
size_fields end = 0
size_fields (field k v fs) = suc (size_fields fs)

-- map[string]any: the entries have distinct keys.
abbrev pub Dict : Type 0
Dict = List (Text × Value)

abbrev pub fields_of : Dict → Fields
fields_of [] = end
fields_of ((k, v) ∷ d) = field k v (fields_of d)

abbrev pub dict_value : Dict → Value
dict_value d = object (fields_of d)

abbrev pub dicts_items : List Dict → Items
dicts_items [] = nil
dicts_items (d ∷ ds) = cons (dict_value d) (dicts_items ds)

unfoldable pub dict_get : Dict → Text → Option Value
dict_get [] k = none
dict_get ((j, v) ∷ d) k = let rest = dict_get d k in if text_eq j k then some v else rest
