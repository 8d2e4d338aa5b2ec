-- ===== src/Services/Openrc/Fitting.antt =====
-- internal/collectors/services/openrc.go: the reported services and the checks of the heartbeat
-- validator on them.
use homelab_inventory_agent.Prelude.{
  ℕ, suc, ◌≤◌, ltb→le, List, [], ◌∷◌, Text, length, map, All, Bool, true, false, Option, none, some,
  Result, ok, err, if◌then◌else◌, ◌≡◌, refl, sym, ap, not, ◌∙◌, arith, reject_if-none,
}
use homelab_inventory_agent.Exec.Ensures.{
  WhenOk, Ensures, Ensures-pure, Ensures-after, Ensures-bind, Ensures-check, Ensures-lift,
  Ensures-result,
}
use homelab_inventory_agent.Protocol.Types.{Service}
use homelab_inventory_agent.Protocol.Heartbeat.{validate_service}
use homelab_inventory_agent.Services.{Commands, ServiceError, is_service_name}
use homelab_inventory_agent.Services.Names.{sort_by_name, sort-All, sort-length}
use homelab_inventory_agent.Services.Valid.{Fits-validate_service}
use homelab_inventory_agent.Services.Systemd.Classes.Known.{KnownClasses, keep-or-set}
use homelab_inventory_agent.Services.Openrc.{
  Entry, Files, is_usable, find_apk, ask_apk, classify, put_name, script_names, service_of,
  put_service, read_services, collect,
}
use homelab_inventory_agent.Services.Openrc.Parts.{
  unknown_classes-KnownClasses, classify_paths-KnownClasses, service-Fits,
}

-- At most 512 services, each as the heartbeat validator wants it.
pub record Valid (services : List Service) : Type 0 where
  pub few : length services ≤ 512
  pub accepted : All (λ s. validate_service s ≡ none) services

length-names : (services : List Service) → length (map (λ s. s.name) services) ≡ length services
length-names [] = refl
length-names (s ∷ services) = ap suc (length-names services)

if_not :
    {A : Type 0} (b : Bool) (x : ServiceError) (r : Result ServiceError A) (a : A)
    → (if not b then err x else r) ≡ ok a
    → (b ≡ true) × (r ≡ ok a)
if_not b x r a h = ground (arith, h)

module _ (files : Files) (root : Text) where
  -- Services of the names in turn, each accepted by the validator.
  record ReadOf (names : List Text) (services : List Service) : Type 0 where
    same_names : map (λ s. s.name) services ≡ names
    accepted : All (λ s. validate_service s ≡ none) services

  put_service-ReadOf :
      (classes : List (Text × Text)) (name : Text) (o : Option Text) (names : List Text)
      (rest : Result ServiceError (List Service)) (services : List Service)
      → KnownClasses classes
      → is_service_name name ≡ true
      → ((others : List Service) → rest ≡ ok others → ReadOf names others)
      → put_service files root classes name o rest ≡ ok services
      → ReadOf (name ∷ names) services
  put_service-ReadOf classes name none names rest services known safe h e = ground (arith, e)
  put_service-ReadOf classes name (some body) names (ok others) services known safe h e =
      let same : service_of files root classes name body ∷ others ≡ services = ground (arith, e) in
      let good = h others refl in
      rw (sym same) (record {
        same_names = ap (λ ts. name ∷ ts) good.same_names;
        accepted = (
          Fits-validate_service _ (service-Fits files root classes name body known safe),
          good.accepted,
        );
      })
  put_service-ReadOf classes name (some body) names (err x) services known safe h e =
      ground (arith, e)

  read_services-ReadOf :
      (classes : List (Text × Text)) (names : List Text) (services : List Service)
      → KnownClasses classes
      → All (λ name. is_service_name name ≡ true) names
      → read_services files root classes names ≡ ok services
      → ReadOf names services
  unfolding read_services
  read_services-ReadOf classes [] services known h e =
      let same : [] ≡ services = ground (arith, e) in
      rw (sym same) (record { same_names = refl; accepted = tt })
  read_services-ReadOf classes (name ∷ names) services known (safe, h) e =
      put_service-ReadOf classes name _ names _ services known safe
        (λ others same. read_services-ReadOf classes names others known h same) e

  put_name-Safe :
      (keeps : Bool) (name : Text) (rest : Result ServiceError (List Text)) (n : ℕ)
      (names : List Text)
      → is_service_name name ≡ true
      → ((others : List Text)
          → rest ≡ ok others
          → (length others ≤ n) × All (λ t. is_service_name t ≡ true) others)
      → put_name files root keeps name rest ≡ ok names
      → (length names ≤ suc n) × All (λ t. is_service_name t ≡ true) names
  put_name-Safe true name (ok others) n names safe h e =
      let same : name ∷ others ≡ names = ground (arith, e) in
      let (few, rest) = h others refl in rw (sym same) (ground (arith, few), (safe, rest))
  put_name-Safe false name (ok others) n names safe h e =
      let same : others ≡ names = ground (arith, e) in
      let (few, rest) = h others refl in rw (sym same) (ground (arith, few), rest)
  put_name-Safe keeps name (err x) n names safe h e = ground (arith, e)

  script_names-Safe :
      (entries : List Entry) (names : List Text)
      → script_names files root entries ≡ ok names
      → (length names ≤ length entries) × All (λ t. is_service_name t ≡ true) names
  unfolding script_names
  script_names-Safe [] names e =
      let same : [] ≡ names = ground (arith, e) in rw (sym same) (ground arith, tt)
  script_names-Safe (entry ∷ entries) names e =
      let (safe, kept) = if_not _ _ _ _ e in
      put_name-Safe (is_usable entry.info_is_dir) entry.name _ (length entries) names safe
        (λ others same. script_names-Safe entries others same) kept

  ask_apk-KnownClasses :
      (paths : List Text) (apk : Option Text)
      → Ensures {S = Commands} {E = ServiceError} KnownClasses (ask_apk files root paths apk)
  ask_apk-KnownClasses paths none =
      Ensures-pure KnownClasses _ (unknown_classes-KnownClasses paths [] tt)
  ask_apk-KnownClasses paths (some apk) = Ensures-after KnownClasses _ _ (λ reply.
      Ensures-pure KnownClasses _ (
        keep-or-set _ _ _ (unknown_classes-KnownClasses paths [] tt)
          (classify_paths-KnownClasses _ _ paths _ (unknown_classes-KnownClasses paths [] tt))))

  classify-KnownClasses :
      (paths : List Text)
      → Ensures {S = Commands} {E = ServiceError} KnownClasses (classify files root paths)
  unfolding classify
  classify-KnownClasses paths = ask_apk-KnownClasses paths (find_apk files root)

  short-length :
      (names : List Text) (services : List Service)
      → length names ≤ 512
      → ReadOf (sort_by_name (λ name. name) names) services
      → length services ≤ 512
  short-length names services h read =
      let same : length services ≡ length names =
        sym (length-names services)
        ∙ ap length read.same_names
        ∙ sort-length (λ name. name) names in
      rw same h

  collect-Ensures : Ensures {S = Commands} {E = ServiceError} Valid (collect files root)
  unfolding collect
  collect-Ensures = Ensures-lift Valid _ _ (λ entries _. Ensures-check Valid _ _ (λ few.
      Ensures-lift Valid _ _ (λ names listed.
        Ensures-bind KnownClasses Valid _ _ (classify-KnownClasses _) (λ classes known.
          let (fewer, safe) = script_names-Safe entries names listed in
          let sorted = sort_by_name (λ name. name) names in
          Ensures-result Valid _ (λ services read.
            let reading =
              read_services-ReadOf classes sorted services known
                (sort-All (λ name. name) (λ t. is_service_name t ≡ true) names safe) read in
            record {
              few =
                  short-length names services
                    (ground (arith, fewer, ltb→le 512 (length entries) (reject_if-none _ _ few)))
                    reading;
              accepted = reading.accepted;
            })))))

-- Whatever the files and apk say: the services that the OpenRC collector returns are at most 512, and
-- pass the checks of ValidateHeartbeat on a service.
pub collect-Valid :
    (files : Files) (root : Text) (commands : Commands)
    → WhenOk Valid (collect files root commands).0
collect-Valid files root commands = (collect-Ensures files root).at commands
