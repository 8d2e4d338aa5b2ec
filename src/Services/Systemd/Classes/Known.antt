-- ===== src/Services/Systemd/Classes/Known.antt =====
-- internal/collectors/services/systemd.go: the classes that are given to units.
use homelab_inventory_agent.Prelude.{
  Option, none, some, List, [], ◌∷◌, Text, codes, text_eq, All, Bool, true, false, if◌then◌else◌,
  ◌≡◌, refl,
}
use homelab_inventory_agent.Exec.Ensures.{Ensures, Ensures-pure, Ensures-after, Ensures-if}
use homelab_inventory_agent.Assoc
use homelab_inventory_agent.Assoc.{set, without, get}
use homelab_inventory_agent.Protocol.Heartbeat.{one_of, classifications}
use homelab_inventory_agent.Services.{Commands, ServiceError, TextLibrary}
use homelab_inventory_agent.Services.Valid.{is_known, known-is_known}
use homelab_inventory_agent.Services.Systemd.Properties.{UnitProperties, or_empty}
use homelab_inventory_agent.Services.Systemd.Classes.{
  Classes, unit_name, unit_path, path_class, classify_paths, classify_owned, classify_systemd_units,
  local_systemd_unit,
}

abbrev pub KnownClasses : Classes → Type 0
KnownClasses = All (λ entry. one_of classifications entry.1 ≡ true)

pub set-KnownClasses :
    (name class : Text) (classes : Classes)
    → one_of classifications class ≡ true
    → KnownClasses classes
    → KnownClasses (Assoc.set name class classes)
set-KnownClasses name class classes h hs =
    Assoc.set-All (λ entry. one_of classifications entry.1 ≡ true) name class classes h hs

Found-is_known :
    (o : Option Text)
    → Assoc.Found (λ class. one_of classifications class ≡ true) o
    → is_known (or_empty o) ≡ true
Found-is_known none h = refl
Found-is_known (some class) h = known-is_known class h

pub get-KnownClasses :
    (name : Text) (classes : Classes)
    → KnownClasses classes
    → is_known (or_empty (Assoc.get classes name)) ≡ true
get-KnownClasses name classes h =
    Found-is_known (Assoc.get classes name)
      (Assoc.get-All (λ class. one_of classifications class ≡ true) name classes h)

one_known :
    (a b : Text) (test : Bool)
    → one_of classifications a ≡ true
    → one_of classifications b ≡ true
    → one_of classifications (if test then a else b) ≡ true
one_known a b true h k = h
one_known a b false h k = k

pub keep-or-set :
    (test : Bool) (kept changed : Classes)
    → KnownClasses kept
    → KnownClasses changed
    → KnownClasses (if test then kept else changed)
keep-or-set true kept changed h k = h
keep-or-set false kept changed h k = k

module _ (lib : TextLibrary) where
  path_class-known : (path : Text) → one_of classifications (path_class lib path) ≡ true
  unfolding text_eq
  path_class-known path =
      one_known (codes "user-installed") (codes "unknown") (local_systemd_unit (lib.clean path))
        refl refl

  classify_paths-KnownClasses :
      (units : List UnitProperties) (classes : Classes)
      → KnownClasses classes
      → KnownClasses (classify_paths lib units classes)
  unfolding classify_paths
  classify_paths-KnownClasses [] classes h = h
  classify_paths-KnownClasses (unit ∷ units) classes h = classify_paths-KnownClasses units _ (
      keep-or-set _ _ _ h (
        set-KnownClasses (unit_name unit) (path_class lib (unit_path lib unit)) classes
          (path_class-known (unit_path lib unit)) h))

  classify_owned-KnownClasses :
      (manual : List Text) (owners : List (Text × List Text)) (units : List UnitProperties)
      (classes : Classes)
      → KnownClasses classes
      → KnownClasses (classify_owned lib manual owners units classes)
  unfolding classify_owned text_eq
  classify_owned-KnownClasses manual owners [] classes h = h
  classify_owned-KnownClasses manual owners (unit ∷ units) classes h =
      classify_owned-KnownClasses manual owners units _ (
        keep-or-set _ _ _ h (
          set-KnownClasses (unit_name unit) _ classes
            (one_known (codes "user-installed") (codes "system") _ refl refl) h))

  pub classify_systemd_units-KnownClasses :
      (units : List UnitProperties)
      → Ensures {S = Commands} {E = ServiceError} KnownClasses (classify_systemd_units lib units)
  unfolding classify_systemd_units
  classify_systemd_units-KnownClasses units =
      let by_path = classify_paths-KnownClasses units [] tt in
      Ensures-if KnownClasses _ _ _ (Ensures-pure KnownClasses _ by_path) (
        Ensures-after KnownClasses _ _ (λ manual.
          Ensures-if KnownClasses _ _ _ (Ensures-pure KnownClasses _ by_path) (
            Ensures-after KnownClasses _ _ (λ owners. Ensures-pure KnownClasses _ (
              keep-or-set owners.failed _ _ by_path
                (classify_owned-KnownClasses _ _ units _ by_path))))))
