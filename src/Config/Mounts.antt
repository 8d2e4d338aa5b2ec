-- ===== src/Config/Mounts.antt =====
-- The additional mounts of a configuration that is accepted.
use homelab_inventory_agent.Prelude.{
  ◌≤◌, ◌||◌, not, ltb, List, [], ◌∷◌, Text, codes, text_eq, text_eq_iff, text_eq→eq, length, Bool,
  true, false, Option, none, some, Result, ok, err, ◌≡◌, ◌≢◌, refl, arith, inl, inr, Bool-cases,
  Option-cases, if◌then◌else◌,
}
use homelab_inventory_agent.Protocol.Contract.{validate_host_ref, HostError}
use homelab_inventory_agent.Config.{
  Config, ConfigError, Containers, Paths, filesystem_not_normal, filesystem_reserved, is_absolute,
  is_one_of, check_filesystems, validate, check_host, check_rest, with_containers, endpoint_checked,
  validate_containers, check_devices,
}

-- Normalized absolute paths of at most 4096 bytes, none twice, none the root and none in `seen`.
abbrev pub Separate : Paths → List Text → List Text → Type 0
Separate paths seen [] = Unit
Separate paths seen (mount ∷ more) =
    (is_absolute mount ≡ true)
    × (paths.clean mount ≡ mount)
    × (length mount ≤ 4096)
    × (is_one_of mount seen ≡ false)
    × (mount ≢ codes "/")
    × Separate paths (mount ∷ seen) more

one_mount :
    (a b c d e : Bool) (rest : Option ConfigError) (bad reserved : ConfigError)
    → (if not a || not b || c then some bad else if d || e then some reserved else rest) ≡ none
    → (a ≡ true) × (b ≡ true) × (c ≡ false) × (d ≡ false) × (e ≡ false) × (rest ≡ none)
one_mount a b c d e rest bad reserved h = ground (arith, h)

check_filesystems-Separate :
    (paths : Paths) (seen mounts : List Text)
    → check_filesystems paths seen mounts ≡ none
    → Separate paths seen mounts
unfolding check_filesystems
check_filesystems-Separate paths seen [] h = tt
check_filesystems-Separate paths seen (mount ∷ more) h =
    let (rooted, cleaned, short, fresh, other, rest) =
      one_mount (is_absolute mount) (text_eq (paths.clean mount) mount)
        (ltb 4096 (length (paths.clean mount))) (is_one_of (paths.clean mount) seen)
        (text_eq (paths.clean mount) (codes "/")) (check_filesystems paths (mount ∷ seen) more)
        filesystem_not_normal filesystem_reserved h in
    let same : paths.clean mount ≡ mount = text_eq→eq (paths.clean mount) mount cleaned in
    (
      rooted,
      same,
      ground (arith, rw same at short),
      rw same at fresh,
      (λ e. ground (arith, text_eq_iff mount (codes "/"), rw same at other, e)),
      check_filesystems-Separate paths (mount ∷ seen) more rest,
    )

-- The mounts of a configuration, at most 63, are apart from each other and from the state directory.
abbrev pub MountsApart : Paths → Config → Type 0
MountsApart paths c =
    (length c.filesystems ≤ 63) × Separate paths (c.state_directory ∷ []) c.filesystems

-- Rejected, or accepted with the mounts as they were given and apart.
abbrev pub Accepts : Paths → Config → Result ConfigError Config → Type 0
Accepts paths c (ok c') = (c'.filesystems ≡ c.filesystems) × MountsApart paths c
Accepts paths c (err e) = Unit

containers-Accepts :
    (paths : Paths) (c : Config) (endpoint : Text) (r : Result ConfigError Containers)
    → MountsApart paths c
    → Accepts paths c (with_containers paths (record c { endpoint = endpoint }) r)
containers-Accepts paths c endpoint (ok k) h = (refl, h)
containers-Accepts paths c endpoint (err e) h = tt

rest-Accepts :
    (paths : Paths) (c : Config) (r : Result ConfigError Text)
    → Accepts paths c (check_rest paths c r)
rest-Accepts paths c (err e) = tt
rest-Accepts paths c (ok endpoint) = elim (Bool-cases (is_absolute c.state_directory)) [
  | inr relative ↦ rw relative tt
  | inl rooted ↦ rw rooted (elim (Bool-cases (ltb 63 (length c.filesystems))) [
    | inl many ↦ rw many tt
    | inr few ↦
        rw few
          (elim (Option-cases (check_filesystems paths (c.state_directory ∷ []) c.filesystems)) [
            | inr (e, bad) ↦ rw bad tt
            | inl apart ↦
                rw apart (elim (Bool-cases (ltb 64 (length c.storage_health.smart_devices))) [
                  | inl many_devices ↦ rw many_devices tt
                  | inr few_devices ↦
                      rw few_devices
                        (elim (Option-cases
                          (check_devices paths [] c.storage_health.smart_devices)) [
                            | inr (e, bad) ↦ rw bad tt
                            | inl devices ↦ rw devices (
                                containers-Accepts paths c endpoint
                                  (validate_containers paths c.containers)
                                  (
                                    ground (arith, few),
                                    check_filesystems-Separate paths (c.state_directory ∷ [])
                                        c.filesystems apart,
                                  ))
                          ])
                ])
          ])
  ])
]

host-Accepts :
    (paths : Paths) (c : Config) (o : Option HostError) → Accepts paths c (check_host paths c o)
host-Accepts paths c none =
    rest-Accepts paths c (endpoint_checked paths (paths.parse_url c.endpoint))
host-Accepts paths c (some e) = tt

-- A configuration that is accepted keeps its mounts, at most 63, each a normalized absolute path of at
-- most 4096 bytes other than the root and the state directory, and no mount is given twice.
pub validate-Accepts : (paths : Paths) (c : Config) → Accepts paths c (validate paths c)
unfolding validate
validate-Accepts paths c = host-Accepts paths c (validate_host_ref c.host)
