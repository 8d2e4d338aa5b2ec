-- ===== src/Examples/Versions.antt =====
-- Versions and numbers at concrete inputs.
use homelab_inventory_agent.Prelude.{[], ◌∷◌, Text, codes, some, ◌≡◌, arith, ◌↔◌}
use homelab_inventory_agent.Decimal.{parse_uint, scan_digits, format_uint}
use homelab_inventory_agent.Decimal.RoundTrip.{parse_uint-format_uint}
use homelab_inventory_agent.Update.Version.{Version, atoi, compare_parsed, equal}
use homelab_inventory_agent.Update.Version.Precedence.{
  flip, PairsApart, compare_parsed-equal_iff, compare_parsed-flip,
}

parse_uint-format_uint_example : parse_uint (format_uint 1_208) ≡ some 1_208
parse_uint-format_uint_example = parse_uint-format_uint 1_208 (omega arith)

abbrev version : Text → Version
version identifier = record { major = 1; minor = 2; patch = 3; pre = identifier ∷ [] }

compare_parsed-equal_iff_example :
    (compare_parsed (version (codes "rc")) (version (codes "beta")) ≡ equal)
    ↔ (version (codes "rc") ≡ version (codes "beta"))
compare_parsed-equal_iff_example =
    compare_parsed-equal_iff (version (codes "rc")) (version (codes "beta"))

rc_apart : PairsApart (codes "rc" ∷ []) (codes "2" ∷ [])
unfolding atoi parse_uint scan_digits
rc_apart = (λ x e f. ground (arith, e), tt)

compare_parsed-flip_example :
    compare_parsed (version (codes "2")) (version (codes "rc"))
    ≡ flip (compare_parsed (version (codes "rc")) (version (codes "2")))
compare_parsed-flip_example =
    compare_parsed-flip (version (codes "rc")) (version (codes "2")) rc_apart
