-- ===== src/Exec/Ensures.antt =====
-- What a method's result satisfies when there is one.
use homelab_inventory_agent.Prelude.{
  ◌≡◌, refl, Result, ok, err, Option, none, some, Bool, true, false, if◌then◌else◌,
}
use homelab_inventory_agent.Exec.{Exec, pure, lift, check, continue, map_error, zoom, ◌>>=◌, ◌>>◌}

abbrev pub WhenOk : {E A : Type 0} → (A → Type 0) → Result E A → Type 0
WhenOk P (ok a) = P a
WhenOk P (err e) = Unit

pub record Ensures {S E A : Type 0} (P : A → Type 0) (m : Exec S E A) : Type 0 where
  pub at : (s : S) → WhenOk P (m s).0

module _ {S E A : Type 0} (P : A → Type 0) where
  pub Ensures-pure : (a : A) → P a → Ensures {S = S} {E = E} P (pure a)
  Ensures-pure a h = record { at = λ s. h }

result-at :
    {E A : Type 0} (P : A → Type 0) (r : Result E A) → ((a : A) → r ≡ ok a → P a) → WhenOk P r
result-at P (ok a) h = h a refl
result-at P (err e) h = tt

module _ {S E A : Type 0} (P : A → Type 0) where
  -- A computed result and nothing behind it.
  pub Ensures-result :
      (r : Result E A) → ((a : A) → r ≡ ok a → P a) → Ensures {S = S} {E = E} P (lift r)
  Ensures-result r h = record { at = λ s. result-at P r h }

module _ {S E A B : Type 0} (P : A → Type 0) (Q : B → Type 0) where
  continue-at :
      (x : Result E A × S) (f : A → Exec S E B)
      → WhenOk P x.0
      → ((a : A) → P a → Ensures Q (f a))
      → WhenOk Q (continue x.0 f x.1).0
  continue-at (ok a, s) f h next = (next a h).at s
  continue-at (err e, s) f h next = tt

  pub Ensures-bind :
      (m : Exec S E A) (f : A → Exec S E B)
      → Ensures P m
      → ((a : A) → P a → Ensures Q (f a))
      → Ensures Q (m >>= f)
  unfolding ◌>>=◌
  Ensures-bind m f hm hf = record { at = λ s. continue-at (m s) f (hm.at s) hf }

any-WhenOk : {E A : Type 0} (r : Result E A) → WhenOk (λ a. Unit) r
any-WhenOk (ok a) = tt
any-WhenOk (err e) = tt

module _ {S E A B : Type 0} (Q : B → Type 0) where
  -- Where nothing need be known of the first half.
  pub Ensures-after :
      (m : Exec S E A) (f : A → Exec S E B) → ((a : A) → Ensures Q (f a)) → Ensures Q (m >>= f)
  Ensures-after m f h =
      Ensures-bind (λ a. Unit) Q m f (record { at = λ s. any-WhenOk (m s).0 }) (λ a u. h a)

module _ {S E B : Type 0} (Q : B → Type 0) where
  checked-at :
      (o : Option E) (m : Exec S E B) (s : S)
      → (o ≡ none → Ensures Q m)
      → WhenOk Q (continue (check o s).0 (λ u. m) (check o s).1).0
  checked-at none m s h = (h refl).at s
  checked-at (some e) m s h = tt

  pub Ensures-check :
      (o : Option E) (m : Exec S E B) → (o ≡ none → Ensures Q m) → Ensures Q (check o >> m)
  unfolding ◌>>=◌
  Ensures-check o m h = record { at = λ s. checked-at o m s h }

  lifted-at :
      {A : Type 0} (r : Result E A) (f : A → Exec S E B) (s : S)
      → ((a : A) → r ≡ ok a → Ensures Q (f a))
      → WhenOk Q (continue r f s).0
  lifted-at (ok a) f s h = (h a refl).at s
  lifted-at (err e) f s h = tt

  pub Ensures-lift :
      {A : Type 0} (r : Result E A) (f : A → Exec S E B)
      → ((a : A) → r ≡ ok a → Ensures Q (f a))
      → Ensures Q (lift r >>= f)
  unfolding ◌>>=◌
  Ensures-lift r f h = record { at = λ s. lifted-at r f s h }

weaker-at :
    {E A : Type 0} (P Q : A → Type 0) (r : Result E A)
    → ((a : A) → P a → Q a)
    → WhenOk P r
    → WhenOk Q r
weaker-at P Q (ok a) h p = h a p
weaker-at P Q (err e) h p = tt

module _ {S E A : Type 0} (P Q : A → Type 0) where
  pub Ensures-weaker : (m : Exec S E A) → ((a : A) → P a → Q a) → Ensures P m → Ensures Q m
  Ensures-weaker m h p = record { at = λ s. weaker-at P Q (m s).0 h (p.at s) }

module _ {S E A : Type 0} (P : A → Type 0) where
  pub Ensures-if :
      (test : Bool) (m n : Exec S E A)
      → Ensures P m
      → Ensures P n
      → Ensures P (if test then m else n)
  Ensures-if true m n h k = h
  Ensures-if false m n h k = k

zoomed-at :
    {E F A : Type 0} (P : A → Type 0) (r : Result E A) (wrap : E → F)
    → WhenOk P r
    → WhenOk P (map_error wrap r)
zoomed-at P (ok a) wrap h = h
zoomed-at P (err e) wrap h = tt

module _ {S T E F A : Type 0} (P : A → Type 0) where
  pub Ensures-zoom :
      (focus : S → T) (replace : T → S → S) (wrap : E → F) (m : Exec T E A)
      → Ensures P m
      → Ensures P (zoom focus replace wrap m)
  unfolding zoom
  Ensures-zoom focus replace wrap m h = record {
    at = λ s. zoomed-at P (m (focus s)).0 wrap (h.at (focus s));
  }
