-- ===== src/Protocol/Bundle.antt =====
-- protocol/v1/bundle.go: the digest of the embedded schemas, and the digests of earlier bundles that
-- the agent still understands. SHA-256 (with its hexadecimal form) is a parameter.
use homelab_inventory_agent.Prelude.{
  List, [], ◌∷◌, ◌++◌, Text, codes, text_eq, ◌||◌, Bool, ◌≡◌, arith, true,
}

pub record Schema : Type 0 where
  pub name : Text
  pub content : Text

abbrev pub legacy_digest : Text
legacy_digest = codes "6991de825d245d5906d64a137f51fd52ed820c97c5f093a0935434a0130c06ec"

abbrev pub intermediate_digest : Text
intermediate_digest = codes "97ea85ea215e8d35d2cf8c70c24d715d79e092391dd57f70b6b54ef9717e7495"

abbrev pub previous_digest : Text
previous_digest = codes "3179a40f31801dee2edaf890485e0e360680684c2ef9ba6e01f6961bacca0106"

abbrev pub pre_openrc_digest : Text
pre_openrc_digest = codes "0e1749bf18a921f89334410d61ce95ebd0d001c6ed30ef6ae4655c90e1180554"

-- What the digest is taken of: each schema's name and content, a zero byte behind each.
unfoldable pub bundle_bytes : List Schema → Text
bundle_bytes [] = []
bundle_bytes (s ∷ rest) = s.name ++ (0 ∷ (s.content ++ (0 ∷ bundle_bytes rest)))

module _ (sha256_hex : Text → Text) (schemas : List Schema) where
  unfoldable pub bundle_digest : Text
  unfolding bundle_bytes
  bundle_digest = sha256_hex (bundle_bytes schemas)

  unfoldable pub is_compatible_bundle_digest : Text → Bool
  is_compatible_bundle_digest value =
      text_eq value bundle_digest
      || text_eq value pre_openrc_digest
      || text_eq value previous_digest
      || text_eq value intermediate_digest
      || text_eq value legacy_digest

  unfoldable pub supports_monitoring_policy : Text → Bool
  supports_monitoring_policy value =
      text_eq value bundle_digest
      || text_eq value pre_openrc_digest
      || text_eq value previous_digest
      || text_eq value intermediate_digest

  unfoldable pub supports_compact_telemetry : Text → Bool
  supports_compact_telemetry value = text_eq value bundle_digest || text_eq value pre_openrc_digest

  -- Every feature is for bundles that are compatible: compact telemetry implies the monitoring
  -- policy, and the monitoring policy implies compatibility.
  pub features_nested :
      (value : Text)
      → (supports_compact_telemetry value ≡ true → supports_monitoring_policy value ≡ true)
        × (supports_monitoring_policy value ≡ true → is_compatible_bundle_digest value ≡ true)
  unfolding supports_compact_telemetry supports_monitoring_policy is_compatible_bundle_digest
  features_nested value = ground arith
