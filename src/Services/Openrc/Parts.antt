-- ===== src/Services/Openrc/Parts.antt =====
-- What is known of the parts of a service that the OpenRC collector reports.
use homelab_inventory_agent.Prelude.{
  ◌≤◌, List, [], ◌∷◌, Text, codes, text_eq, is_blank, length, All, true, false, Option, none, some,
  ◌≡◌, refl, arith, inl, inr, Bool-cases, trim_space,
}
use homelab_inventory_agent.Config.{is_one_of}
use homelab_inventory_agent.Assoc
use homelab_inventory_agent.Protocol.Heartbeat.{one_of, classifications}
use homelab_inventory_agent.Services.{is_service_name}
use homelab_inventory_agent.Services.Names.{is_service_name-length, is_service_name-blank}
use homelab_inventory_agent.Services.Valid.{Fits}
use homelab_inventory_agent.Services.Systemd.Bounds.{truncate-length}
use homelab_inventory_agent.Services.Systemd.Classes.Known.{
  KnownClasses, get-KnownClasses, set-KnownClasses,
}
use homelab_inventory_agent.Services.Openrc.Texts.{
  trim_left_quotes, trim_right_quotes, description_of, find_description, open_rc_description,
}
use homelab_inventory_agent.Services.Openrc.{
  Files, unknown_classes, owner_class, classify_paths, find_state, open_rc_state, init_path,
  service_of, states,
}

description_of-length :
    (o : Option Text) (rest : Text) → length rest ≤ 2048 → length (description_of o rest) ≤ 2048
description_of-length none rest h = h
description_of-length (some value) rest h =
    let short = truncate-length 512 (trim_right_quotes (trim_left_quotes (trim_space value))) in
    omega (arith, short)

find_description-length : (lines : List Text) → length (find_description lines) ≤ 2048
unfolding find_description
find_description-length [] = ground arith
find_description-length (line ∷ lines) =
    description_of-length _ (find_description lines) (find_description-length lines)

pub unknown_classes-KnownClasses :
    (paths : List Text) (classes : List (Text × Text))
    → KnownClasses classes
    → KnownClasses (unknown_classes paths classes)
unfolding unknown_classes text_eq
unknown_classes-KnownClasses [] classes h = h
unknown_classes-KnownClasses (path ∷ paths) classes h =
    unknown_classes-KnownClasses paths _ (set-KnownClasses path (codes "unknown") classes refl h)

owner_class-known :
    (world : List Text) (owner : Option Text)
    → one_of classifications (owner_class world owner) ≡ true
unfolding text_eq
owner_class-known world none = refl
owner_class-known world (some owner) = elim (Bool-cases (is_one_of owner world)) [
  | inl e ↦ rw e refl
  | inr e ↦ rw e refl
]

pub classify_paths-KnownClasses :
    (owners : List (Text × Text)) (world paths : List Text) (classes : List (Text × Text))
    → KnownClasses classes
    → KnownClasses (classify_paths owners world paths classes)
unfolding classify_paths
classify_paths-KnownClasses owners world [] classes h = h
classify_paths-KnownClasses owners world (path ∷ paths) classes h =
    classify_paths-KnownClasses owners world paths _
      (set-KnownClasses path _ classes (owner_class-known world (Assoc.get owners path)) h)

-- A state that is not blank and short, as all that are reported are.
abbrev Readable : Text × Text → Type 0
Readable state = (is_blank state.0 ≡ false) × (length state.0 ≤ 64) × (length state.1 ≤ 64)

module _ (files : Files) (root : Text) where
  find_state-Readable :
      (name : Text) (candidates : List (Text × (Text × Text)))
      → All (λ candidate. Readable candidate.1) candidates
      → Readable (find_state files root name candidates)
  unfolding find_state is_blank
  find_state-Readable name [] h = (refl, ground arith, ground arith)
  find_state-Readable name ((directory, state) ∷ rest) (h, hs) =
      elim (Bool-cases
        (files.lstat (files.join (root ∷ codes "run/openrc" ∷ directory ∷ name ∷ [])))) [
          | inl e ↦ rw e h
          | inr e ↦ rw e (find_state-Readable name rest hs)
        ]

  open_rc_state-Readable : (name : Text) → Readable (open_rc_state files root name)
  unfolding open_rc_state is_blank
  open_rc_state-Readable name = find_state-Readable name states (
    (refl, ground arith, ground arith),
    (
      (refl, ground arith, ground arith),
      (
        (refl, ground arith, ground arith),
        ((refl, ground arith, ground arith), ((refl, ground arith, ground arith), tt)),
      ),
    ),
  )

  pub service-Fits :
      (classes : List (Text × Text)) (name body : Text)
      → KnownClasses classes
      → is_service_name name ≡ true
      → Fits (service_of files root classes name body)
  unfolding open_rc_description
  service-Fits classes name body known safe =
      let (active, short, sub) = open_rc_state-Readable name in
      record {
        named = is_service_name-blank name safe;
        name_fits = is_service_name-length name safe;
        description_fits = find_description-length _;
        active = active;
        active_fits = short;
        sub_fits = sub;
        classified = get-KnownClasses (init_path files root name) classes known;
        result_fits = refl;
        active_time_fits = refl;
        inactive_time_fits = refl;
        gauge = refl;
      }
