-- ===== src/Services/Rcd/Reported.antt =====
-- What is known of the services that the rc.d collector reports.
use homelab_inventory_agent.Prelude.{
  ltb→le, ◌≤◌, suc, List, [], ◌∷◌, Text, codes, text_eq, length, map, All, true, false, none,
  reject_if-none, ◌≡◌, refl, sym, ap, ◌∙◌, arith, inl, inr, Bool-cases, is_blank,
}
use homelab_inventory_agent.Exec.Ensures.{
  WhenOk, Ensures, Ensures-pure, Ensures-bind, Ensures-after, Ensures-check, Ensures-lift,
  Ensures-weaker,
}
use homelab_inventory_agent.Protocol.Types.{Service}
use homelab_inventory_agent.Protocol.Heartbeat.{validate_service, one_of, classifications}
use homelab_inventory_agent.Services.Valid.{Fits, known-is_known, Fits-validate_service}
use homelab_inventory_agent.Services.{
  Reply, Commands, ServiceError, TextLibrary, is_under, unix_lines,
}
use homelab_inventory_agent.Distinct.{Fresh}
use homelab_inventory_agent.Services.Names.{
  is_service_name-length, is_service_name-blank, Increasing, sort_by_name, sort-All, sort-length,
  sort-Increasing,
}
use homelab_inventory_agent.Services.Rcd.{
  RcService, classify_rcd_path, state_of, service_of, inspect, collect, says_stopped,
}
use homelab_inventory_agent.Services.Rcd.Listing.{Sound, names, list_services-Listing}

classify-known : (path : Text) → one_of classifications (classify_rcd_path path) ≡ true
unfolding classify_rcd_path text_eq
classify-known path = elim (Bool-cases (is_under (codes "/usr/local/etc/rc.d") path)) [
  | inl e ↦ rw e refl
  | inr e ↦ elim (Bool-cases (is_under (codes "/etc/rc.d") path)) [
    | inl f ↦ rw (e, f) refl
    | inr f ↦ rw (e, f) refl
  ]
]

abbrev Pair : Type 0
Pair = Text × Text

state-fits :
    (lib : TextLibrary) (reply : Reply) (P : Pair → Type 0)
    → P (codes "active", codes "running")
    → P (codes "inactive", codes "stopped")
    → P (codes "unknown", codes "collection-timeout")
    → P (codes "unknown", codes "status-unavailable")
    → P (state_of lib reply)
unfolding state_of
state-fits lib reply P a b c d = elim (Bool-cases reply.failed) [
  | inr e ↦ rw e a
  | inl e ↦ elim (Bool-cases (says_stopped lib (lib.to_lower reply.output))) [
    | inl f ↦ rw (e, f) b
    | inr f ↦ elim (Bool-cases reply.expired) [ inl g ↦ rw (e, f, g) c | inr g ↦ rw (e, f, g) d ]
  ]
]

abbrev Readable : Pair → Type 0
Readable p = (is_blank p.0 ≡ false) × (length p.0 ≤ 64) × (length p.1 ≤ 64)

state-Readable : (lib : TextLibrary) (reply : Reply) → Readable (state_of lib reply)
unfolding is_blank
state-Readable lib reply =
    state-fits lib reply Readable (refl, ground arith, ground arith)
      (refl, ground arith, ground arith) (refl, ground arith, ground arith)
      (refl, ground arith, ground arith)

service-Fits :
    (lib : TextLibrary) (s : RcService) (reply : Reply)
    → Sound s
    → Fits (service_of lib s (state_of lib reply))
service-Fits lib s reply (safe, (path, classified)) =
    let (named, short, sub) = state-Readable lib reply in
    record {
      named = is_service_name-blank s.name safe;
      name_fits = is_service_name-length s.name safe;
      description_fits = ground arith;
      active = named;
      active_fits = short;
      sub_fits = sub;
      classified = rw classified (known-is_known _ (classify-known path));
      result_fits = refl;
      active_time_fits = refl;
      inactive_time_fits = refl;
      gauge = refl;
    }

-- What comes of the services that are inspected: their names, and services that fit.
record Inspected (names_of : List Text) (services : List Service) : Type 0 where
  same_names : map (λ s. s.name) services ≡ names_of
  fitting : All (λ s. validate_service s ≡ none) services

inspect-Inspected :
    (lib : TextLibrary) (services : List RcService)
    → All Sound services
    → Ensures {S = Commands} {E = ServiceError} (Inspected (names services)) (inspect lib services)
unfolding inspect
inspect-Inspected lib [] h = Ensures-pure _ [] (record { same_names = refl; fitting = tt })
inspect-Inspected lib (s ∷ services) (sound, h) = Ensures-after _ _ _ (λ reply.
    Ensures-bind _ _ _ _ (inspect-Inspected lib services h) (λ others good.
      Ensures-pure _ (service_of lib s (state_of lib reply) ∷ others) (record {
        same_names = ap (λ ts. s.name ∷ ts) good.same_names;
        fitting = (Fits-validate_service _ (service-Fits lib s reply sound), good.fitting);
      })))

-- At most 512 services with strictly increasing names, each as the heartbeat validator wants it.
pub record Reported (services : List Service) : Type 0 where
  pub few : length services ≤ 512
  pub increasing : Increasing (map (λ s. s.name) services)
  pub valid : All (λ s. validate_service s ≡ none) services

length-map : (services : List Service) → length (map (λ s. s.name) services) ≡ length services
length-map [] = refl
length-map (s ∷ services) = ap suc (length-map services)

length-names : (services : List RcService) → length (names services) ≡ length services
length-names [] = refl
length-names (s ∷ services) = ap suc (length-names services)

Inspected-Reported :
    (services : List RcService) (out : List Service)
    → length services ≤ 512
    → Fresh (names services)
    → Inspected (names (sort_by_name (λ s. s.name) services)) out
    → Reported out
Inspected-Reported services out few fresh h =
    let sorted = sort_by_name (λ s. s.name) services in
    let same_length : length out ≡ length services =
      sym (length-map out)
      ∙ ap length h.same_names
      ∙ length-names sorted
      ∙ sort-length (λ s. s.name) services in
    record {
      few = rw same_length few;
      increasing = rw h.same_names (sort-Increasing (λ s. s.name) services fresh);
      valid = h.fitting;
    }

collect-Ensures :
    (lib : TextLibrary) → Ensures {S = Commands} {E = ServiceError} Reported (collect lib)
unfolding collect
collect-Ensures lib = Ensures-after _ _ _ (λ reply. Ensures-check _ _ _ (λ answered.
    Ensures-check _ _ _ (λ lines_fit. Ensures-lift _ _ _ (λ services listed.
      Ensures-check _ _ _ (λ few.
        let listing = list_services-Listing lib [] (unix_lines reply.output) services listed in
        Ensures-weaker (Inspected (names (sort_by_name (λ s. s.name) services))) Reported
          (inspect lib (sort_by_name (λ s. s.name) services))
          (λ out h.
            Inspected-Reported services out (ltb→le 512 (length services) (reject_if-none _ _ few))
              listing.fresh h)
          (inspect-Inspected lib (sort_by_name (λ s. s.name) services)
            (sort-All (λ s. s.name) Sound services listing.sound)))))))

-- Whatever the commands answer: the services that the rc.d collector returns are at most 512, in
-- strictly increasing order of their names, and pass the checks of ValidateHeartbeat on a service.
pub collect-Reported :
    (lib : TextLibrary) (commands : Commands) → WhenOk Reported (collect lib commands).0
collect-Reported lib commands = (collect-Ensures lib).at commands
