-- ===== src/Update/Release/Origin.antt =====
-- internal/agentupdate/release.go: the URLs that the release client asks for, redirects included.
use homelab_inventory_agent.Prelude.{
  ℕ, suc, not, List, [], ◌∷◌, ◌++◌, Text, true, Option, none, some, Result, ok, err, All, ◌≡◌, refl,
  arith, inl, inr, Bool-cases, then_check-none, reject_if-none,
}
use homelab_inventory_agent.Exec.Moves.{Progress, Moves, Moves-bind, Moves-lift_bind, moves_rules}
use homelab_inventory_agent.Config.{Url}
use homelab_inventory_agent.Update.Machine.{Answer, Web, ReleaseError}
use homelab_inventory_agent.Update.Release.{
  Libraries, ReleaseClient, Asset, current_path, same_origin, check_redirect, refused_or, follow,
  answered, exchange, do_request, checked_url, resolve, parsed, get_request, current, manifest,
  download,
}

module _ (lib : Libraries) where
  -- What net/url promises: the text of a URL of the origin is read as a URL of the origin.
  pub record KeepsOrigin (origin : Url) : Type 0 where
    pub own :
        (u : Url)
        → lib.parse_url (lib.url_text origin ++ current_path) ≡ some u
        → same_origin lib origin u ≡ true
    pub resolved :
        (u v : Url)
        → same_origin lib origin u ≡ true
        → lib.parse_url (lib.url_text u) ≡ some v
        → same_origin lib origin v ≡ true

  abbrev pub FromOrigin : ReleaseClient → List Url → Type 0
  FromOrigin client = All (λ u. same_origin lib client.origin u ≡ true)

  module _ (client : ReleaseClient) where
    abbrev visits : Progress Web
    visits = record {
      Goes = λ w v. FromOrigin client w.visited → FromOrigin client v.visited;
      stays = λ w h. h;
      joins = λ u v w f g h. g (f h);
    }

    hop_followed :
        (o : Option ReleaseError) (hop : Url) (seen : List Url)
        (rest : Result ReleaseError (Unit {0}) × List Url)
        → FromOrigin client seen
        → (o ≡ none → FromOrigin client rest.1)
        → FromOrigin client (refused_or lib o seen rest).1
    hop_followed none hop seen rest h next = next refl
    hop_followed (some e) hop seen rest h next = h

    redirect_allowed :
        (hop : Url) (via : ℕ)
        → check_redirect lib client hop via ≡ none
        → same_origin lib client.origin hop ≡ true
    unfolding check_redirect
    redirect_allowed hop via h =
        let kept =
          reject_if-none (not (same_origin lib client.origin hop)) _ (then_check-none _ _ h).0 in
        ground (arith, kept)

    follow-FromOrigin :
        (via : ℕ) (hops seen : List Url)
        → FromOrigin client seen
        → FromOrigin client (follow lib client via hops seen).1
    unfolding follow
    follow-FromOrigin via [] seen h = h
    follow-FromOrigin via (hop ∷ hops) seen h =
        hop_followed (check_redirect lib client hop via) hop seen _ h (λ allowed.
          follow-FromOrigin (suc via) hops (hop ∷ seen) (redirect_allowed hop via allowed, h))

    answered-FromOrigin :
        (a : Answer) (rest : List (Option Answer)) (x : Result ReleaseError (Unit {0}) × List Url)
        → FromOrigin client x.1
        → FromOrigin client (answered lib a rest x).1.visited
    answered-FromOrigin a rest (ok u, seen) h = h
    answered-FromOrigin a rest (err e, seen) h = h

    exchange-FromOrigin :
        (u : Url) (answers : List (Option Answer)) (seen : List Url)
        → FromOrigin client (u ∷ seen)
        → FromOrigin client (exchange lib client u answers seen).1.visited
    exchange-FromOrigin u [] seen h = h
    exchange-FromOrigin u (none ∷ rest) seen h = h
    exchange-FromOrigin u (some a ∷ rest) seen h =
        answered-FromOrigin a rest _ (follow-FromOrigin 1 a.hops (u ∷ seen) h)

    Moves-do_request :
        (u : Url) → same_origin lib client.origin u ≡ true → Moves visits (do_request lib client u)
    unfolding do_request
    Moves-do_request u same = record {
      at = λ w h. exchange-FromOrigin u w.answers w.visited (same, h);
    }

    parsed-eq-ok : (o : Option Url) (u : Url) → parsed lib o ≡ ok u → o ≡ some u
    parsed-eq-ok o u h = ground (arith, h)

    Moves-get_request :
        (text : Text)
        → ((u : Url) → lib.parse_url text ≡ some u → same_origin lib client.origin u ≡ true)
        → Moves visits (get_request lib client text)
    unfolding get_request
    Moves-get_request text same =
        Moves-lift_bind visits (parsed lib (lib.parse_url text)) _
          (λ u e. Moves-do_request u (same u (parsed-eq-ok _ u e)))

    checked_url-SameOrigin :
        (o : Option Url) (u : Url)
        → checked_url lib client o ≡ ok u
        → same_origin lib client.origin u ≡ true
    checked_url-SameOrigin none u h = ground (arith, h)
    checked_url-SameOrigin (some v) u h =
        elim (Bool-cases (same_origin lib client.origin (lib.resolve_reference client.origin v))) [
          | inl same ↦ ground (arith, rw same at h)
          | inr other ↦ ground (arith, rw other at h)
        ]

    resolve-SameOrigin :
        (reference : Text) (u : Url)
        → resolve lib client reference ≡ ok u
        → same_origin lib client.origin u ≡ true
    unfolding resolve
    resolve-SameOrigin reference u h = checked_url-SameOrigin (lib.parse_url reference) u h

    module _ (keeps : KeepsOrigin client.origin) where
      Moves-current : Moves visits (current lib client)
      unfolding current
      Moves-current =
          Moves-bind visits _ _ (Moves-get_request _ keeps.own) (λ a. search moves_rules)

      Moves-manifest : (version url : Text) → Moves visits (manifest lib client version url)
      unfolding manifest
      Moves-manifest version url = Moves-bind visits _ _ (search moves_rules) (λ _.
          Moves-lift_bind visits _ _ (λ u e.
            Moves-bind visits _ _
              (Moves-get_request _ (λ v p. keeps.resolved u v (resolve-SameOrigin _ u e) p))
              (λ a. search moves_rules)))

      Moves-download :
          (version : Text) (item : Asset) → Moves visits (download lib client version item)
      unfolding download
      Moves-download version item = Moves-lift_bind visits _ _ (λ u e.
          Moves-bind visits _ _
            (Moves-get_request _ (λ v p. keeps.resolved u v (resolve-SameOrigin _ u e) p))
            (λ a. search moves_rules))

-- Whatever the endpoint answers and wherever it redirects to, the client asks only for URLs of the
-- configured origin, for the current release, for a manifest and for an asset.
pub requests-FromOrigin :
    (lib : Libraries) (client : ReleaseClient) (version url : Text) (item : Asset) (web : Web)
    → KeepsOrigin lib client.origin
    → FromOrigin lib client web.visited
    → FromOrigin lib client (current lib client web).1.visited
      × FromOrigin lib client (manifest lib client version url web).1.visited
      × FromOrigin lib client (download lib client version item web).1.visited
requests-FromOrigin lib client version url item web keeps h = (
  (Moves-current lib client keeps).at web h,
  (Moves-manifest lib client keeps version url).at web h,
  (Moves-download lib client keeps version item).at web h,
)
