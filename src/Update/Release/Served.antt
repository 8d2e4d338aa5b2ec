-- ===== src/Update/Release/Served.antt =====
-- Where a manifest that the release client returns comes from: the answers of the endpoint.
use homelab_inventory_agent.Prelude.{
  List, [], ◌∷◌, ◌++◌, Text, length, ltb, not, true, false, Bool, Option, none, some, Result, ok,
  err, ◌≡◌, refl, ap, ◌∙◌, arith, if◌then◌else◌,
}
use homelab_inventory_agent.Exec.{lift, check, continue, ◌>>=◌, ◌>>◌}
use homelab_inventory_agent.Exec.Moves.{Progress, Moves, Moves-bind, moves_rules}
use homelab_inventory_agent.Exec.Ensures.{
  WhenOk, Ensures, Ensures-pure, Ensures-lift, Ensures-check,
}
use homelab_inventory_agent.Distinct.{Occurs, append_assoc}
use homelab_inventory_agent.Config.{Url}
use homelab_inventory_agent.Transport.{is_success}
use homelab_inventory_agent.Update.Machine.{
  Answer, Web, W, ReleaseError, status_failed, response_too_large,
}
use homelab_inventory_agent.Update.Release.{
  Libraries, ReleaseClient, Asset, Manifest, max_metadata_bytes, answered, exchange, do_request,
  parsed, get_request, or_decode_failed, decode_response, resolve, current, manifest_reference,
  manifest, download,
}

-- `rest` is what is left of the answers.
abbrev pub LeftOf : List (Option Answer) → List (Option Answer) → Type 0
LeftOf answers rest = (used : List (Option Answer)) × (used ++ rest ≡ answers)

abbrev pub consumes : Progress Web
consumes = record {
  Goes = λ w v. LeftOf w.answers v.answers;
  stays = λ w. ([], refl);
  joins =
      λ u v w (xs, e) (ys, f). (xs ++ ys, append_assoc xs ys w.answers ∙ ap (λ t. xs ++ t) f ∙ e);
}

module _ (lib : Libraries) (client : ReleaseClient) where
  answered-LeftOf :
      (a : Answer) (rest : List (Option Answer)) (x : Result ReleaseError (Unit {0}) × List Url)
      → LeftOf (some a ∷ rest) (answered lib a rest x).1.answers
  answered-LeftOf a rest (ok u, seen) = (some a ∷ [], refl)
  answered-LeftOf a rest (err e, seen) = (some a ∷ [], refl)

  exchange-LeftOf :
      (u : Url) (answers : List (Option Answer)) (seen : List Url)
      → LeftOf answers (exchange lib client u answers seen).1.answers
  exchange-LeftOf u [] seen = ([], refl)
  exchange-LeftOf u (none ∷ rest) seen = (none ∷ [], refl)
  exchange-LeftOf u (some a ∷ rest) seen = answered-LeftOf a rest _

  Moves-do_request : (u : Url) → Moves consumes (do_request lib client u)
  unfolding do_request
  Moves-do_request u = record { at = λ w. exchange-LeftOf u w.answers w.visited }

  Moves-get_request : (text : Text) → Moves consumes (get_request lib client text)
  unfolding get_request
  Moves-get_request text = search (moves_rules, Moves-do_request)

  pub Moves-current : Moves consumes (current lib client)
  unfolding current
  Moves-current = search (moves_rules, Moves-get_request)

  pub Moves-manifest : (version url : Text) → Moves consumes (manifest lib client version url)
  unfolding manifest
  Moves-manifest version url = Moves-bind consumes _ _ (search moves_rules) (λ _.
      Moves-bind consumes _ _ (search moves_rules)
        (λ _. Moves-bind consumes _ _ (Moves-get_request _) (λ a. search moves_rules)))

  pub Moves-download :
      (version : Text) (item : Asset) → Moves consumes (download lib client version item)
  unfolding download
  Moves-download version item = search (moves_rules, Moves-get_request)

  answered-Occurs :
      (a : Answer) (rest : List (Option Answer)) (x : Result ReleaseError (Unit {0}) × List Url)
      → WhenOk (λ b. Occurs (some b) (some a ∷ rest)) (answered lib a rest x).0
  answered-Occurs a rest (ok u, seen) = ([], rest, refl)
  answered-Occurs a rest (err e, seen) = tt

  exchange-Occurs :
      (u : Url) (answers : List (Option Answer)) (seen : List Url)
      → WhenOk (λ b. Occurs (some b) answers) (exchange lib client u answers seen).0
  exchange-Occurs u [] seen = tt
  exchange-Occurs u (none ∷ rest) seen = tt
  exchange-Occurs u (some a ∷ rest) seen = answered-Occurs a rest _

  requested-Occurs :
      (r : Result ReleaseError Url) (w : Web)
      → WhenOk (λ b. Occurs (some b) w.answers) (continue r (do_request lib client) w).0
  unfolding do_request
  requested-Occurs (ok u) w = exchange-Occurs u w.answers w.visited
  requested-Occurs (err e) w = tt

  get_request-Occurs :
      (text : Text) (w : Web)
      → WhenOk (λ b. Occurs (some b) w.answers) (get_request lib client text w).0
  unfolding get_request ◌>>=◌
  get_request-Occurs text w = requested-Occurs (parsed lib (lib.parse_url text)) w

-- The manifest is what JSON reads in an answer with a good status.
abbrev pub Served : Libraries → List (Option Answer) → Manifest → Type 0
Served lib answers listed =
    (a : Answer) × Occurs (some a) answers
    × (is_success a.status_code ≡ true)
    × (lib.decode_manifest a.body ≡ some listed)

decoded :
    (lib : Libraries) {A : Type 0} (good long : Bool) (o : Option A) (x y : ReleaseError) (m : A)
    → (if not good then err x else if long then err y else or_decode_failed lib o) ≡ ok m
    → (good ≡ true) × (o ≡ some m)
decoded lib true true o x y m h = ground (arith, h)
decoded lib true false none x y m h = ground (arith, h)
decoded lib true false (some a) x y m h = (refl, ground (arith, h))
decoded lib false long o x y m h = ground (arith, h)

module _ {B : Type 0} (P : Web → B → Type 0) where
  -- A result that is described by the answers that were there before.
  abbrev pub Tells : W B → Type 0
  Tells m = (w : Web) → WhenOk (P w) (m w).0

  Tells-check : (o : Option ReleaseError) (m : W B) → Tells m → Tells (check o >> m)
  unfolding ◌>>=◌
  Tells-check none m h w = h w
  Tells-check (some e) m h w = tt

module _ {A B : Type 0} (P : Web → B → Type 0) where
  Tells-lift :
      (r : Result ReleaseError A) (f : A → W B) → ((a : A) → Tells P (f a)) → Tells P (lift r >>= f)
  unfolding ◌>>=◌
  Tells-lift (ok a) f h w = h a w
  Tells-lift (err e) f h w = tt

  then-at :
      (Q : Web → A → Type 0) (w : Web) (x : Result ReleaseError A × Web) (f : A → W B)
      → WhenOk (Q w) x.0
      → ((a : A) → Q w a → Ensures (P w) (f a))
      → WhenOk (P w) (continue x.0 f x.1).0
  then-at Q w (ok a, v) f q h = (h a q).at v
  then-at Q w (err e, v) f q h = tt

  Tells-then :
      (Q : Web → A → Type 0) (m : W A) (f : A → W B)
      → ((w : Web) → WhenOk (Q w) (m w).0)
      → ((w : Web) (a : A) → Q w a → Ensures (P w) (f a))
      → Tells P (m >>= f)
  unfolding ◌>>=◌
  Tells-then Q m f known h w = then-at Q w (m w) f (known w) (h w)

-- A manifest that is returned was read from one of the answers that were waiting.
pub manifest-Served :
    (lib : Libraries) (client : ReleaseClient) (version url : Text) (w : Web)
    → WhenOk (Served lib w.answers) (manifest lib client version url w).0
unfolding manifest decode_response
manifest-Served lib client version url = Tells-check From _ _ (
    Tells-lift From (resolve lib client (manifest_reference lib version url)) _ (λ u.
      Tells-then From (λ w b. Occurs (some b) w.answers) (get_request lib client (lib.url_text u)) _
        (get_request-Occurs lib client (lib.url_text u))
        (λ w a stands.
          Ensures-lift (From w) (decode_response lib lib.decode_manifest max_metadata_bytes a) _
            (λ listed read.
              let (good, same) =
                decoded lib (is_success a.status_code) (ltb max_metadata_bytes (length a.body))
                  (lib.decode_manifest a.body) status_failed response_too_large listed read in
              Ensures-check (From w) _ _
                (λ sound. Ensures-pure (From w) listed (a, stands, good, same))))))
  where
    From : Web → Manifest → Type 0
    From w = Served lib w.answers
