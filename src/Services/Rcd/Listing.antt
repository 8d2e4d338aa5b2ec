-- ===== src/Services/Rcd/Listing.antt =====
-- The list of services that the rc.d collector reads.
use homelab_inventory_agent.Prelude.{
  ◌&&◌, ◌||◌, not, List, [], ◌∷◌, Text, text_eq, trim_space, is_empty, map, All, Bool, true, false,
  Result, ok, err, if◌then◌else◌, ◌≡◌, refl, sym, arith,
}
use homelab_inventory_agent.Config.{is_one_of, is_absolute}
use homelab_inventory_agent.Services.{
  ServiceError, unsafe_path, unsafe_name, TextLibrary, is_service_name,
}
use homelab_inventory_agent.Distinct.{Fresh, behind-fresh}
use homelab_inventory_agent.Services.Rcd.{RcService, classify_rcd_path, put_first, list_services}

-- The name of a service, as rc.d and the protocol allow it, and the classification of a path.
abbrev pub Sound : RcService → Type 0
Sound s =
    (is_service_name s.name ≡ true) × ((path : Text) × (s.classification ≡ classify_rcd_path path))

abbrev pub names : List RcService → List Text
names = map (λ s. s.name)

-- A list of sound services with names of their own, none of them in `seen`.
pub record Listing (seen : List Text) (services : List RcService) : Type 0 where
  pub sound : All Sound services
  pub unseen : All (λ t. is_one_of t seen ≡ false) (names services)
  pub fresh : Fresh (names services)

module _ (s : RcService) (seen : List Text) where
  first-Listing :
      (rest : List RcService)
      → Sound s
      → is_one_of s.name seen ≡ false
      → Listing (s.name ∷ seen) rest
      → Listing seen (s ∷ rest)
  first-Listing rest sound new h =
      let (fresh, unseen) = behind-fresh s.name seen (names rest) h.unseen in
      record { sound = (sound, h.sound); unseen = (new, unseen); fresh = (fresh, h.fresh) }

  keep-Listing :
      (r : Result ServiceError (List RcService)) (services : List RcService)
      → Sound s
      → is_one_of s.name seen ≡ false
      → ((rest : List RcService) → r ≡ ok rest → Listing (s.name ∷ seen) rest)
      → put_first true s r ≡ ok services
      → Listing seen services
  keep-Listing (ok rest) services sound new h e =
      let same : s ∷ rest ≡ services = ground (arith, e) in
      rw (sym same) (first-Listing rest sound new (h rest refl))
  keep-Listing (err x) services sound new h e = ground (arith, e)

  skip-Listing :
      (r : Result ServiceError (List RcService)) (services : List RcService)
      → ((rest : List RcService) → r ≡ ok rest → Listing seen rest)
      → put_first false s r ≡ ok services
      → Listing seen services
  skip-Listing (ok rest) services h e = h services (ground (arith, e))
  skip-Listing (err x) services h e = ground (arith, e)

  step-Listing :
      (keeps : Bool) (rest_of : List Text → Result ServiceError (List RcService))
      (services : List RcService)
      → (keeps ≡ true → Sound s × (is_one_of s.name seen ≡ false))
      → ((other : List Text) (rest : List RcService) → rest_of other ≡ ok rest → Listing other rest)
      → put_first keeps s (rest_of (if keeps then s.name ∷ seen else seen)) ≡ ok services
      → Listing seen services
  step-Listing true rest_of services h hs e =
      let (sound, new) = h refl in
      keep-Listing (rest_of (s.name ∷ seen)) services sound new (hs (s.name ∷ seen)) e
  step-Listing false rest_of services h hs e = skip-Listing (rest_of seen) services (hs seen) e

passes :
    (a b : Bool) (x y : ServiceError) (r : Result ServiceError (List RcService))
    (services : List RcService)
    → (if a then err x else if b then err y else r) ≡ ok services
    → (b ≡ false) × (r ≡ ok services)
passes a b x y r services h = ground (arith, h)

kept-parts :
    (blank known safe : Bool)
    → (not blank && not safe) ≡ false
    → (not blank && not known) ≡ true
    → (safe ≡ true) × (known ≡ false)
kept-parts blank known safe a b = ground (arith, a, b)

pub list_services-Listing :
    (lib : TextLibrary) (seen lines : List Text) (services : List RcService)
    → list_services lib seen lines ≡ ok services
    → Listing seen services
unfolding list_services
list_services-Listing lib seen [] services e =
    let same : [] ≡ services = ground (arith, e) in
    rw (sym same) (record { sound = tt; unseen = tt; fresh = tt })
list_services-Listing lib seen (line ∷ lines) services e =
    let path = trim_space line in
    let name = lib.base path in
    let service : RcService = record { name = name; classification = classify_rcd_path path } in
    let keeps = not (is_empty path) && not (is_one_of name seen) in
    let rest_of : List Text → Result ServiceError (List RcService) =
      λ other. list_services lib other lines in
    let (safe, kept) =
      passes
        (not (is_empty path) && (not (is_absolute path) || not (text_eq (lib.clean path) path)))
        (not (is_empty path) && not (is_service_name name)) unsafe_path unsafe_name
        (put_first keeps service (rest_of (if keeps then name ∷ seen else seen))) services e in
    step-Listing service seen keeps rest_of services
      (λ k.
        let (named, new) =
          kept-parts (is_empty path) (is_one_of name seen) (is_service_name name) safe k in
        ((named, (path, refl)), new))
      (λ other rest h. list_services-Listing lib other lines rest h) kept
