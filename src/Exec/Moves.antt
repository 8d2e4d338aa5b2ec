-- ===== src/Exec/Moves.antt =====
-- What a method does to its object, as a relation of the object before and the object behind it.
use homelab_inventory_agent.Prelude.{
  ◌≡◌, refl, Result, ok, err, Option, none, some, Bool, true, false, if◌then◌else◌,
}
use homelab_inventory_agent.Exec.{Exec, pure, raise, lift, get, check, continue, zoom, ◌>>=◌}

-- A relation that sequences of steps keep.
pub record Progress (S : Type 0) : Type 1 where
  pub Goes : S → S → Type 0
  pub stays : (s : S) → Goes s s
  pub joins : (s t u : S) → Goes s t → Goes t u → Goes s u

pub record Moves {S E A : Type 0} (p : Progress S) (m : Exec S E A) : Type 0 where
  pub at : (s : S) → p.Goes s (m s).1

module _ {S E A : Type 0} (p : Progress S) where
  pub Moves-pure : (a : A) → Moves {E = E} p (pure a)
  Moves-pure a = record { at = p.stays }

  pub Moves-raise : (e : E) → Moves {A = A} p (raise e)
  Moves-raise e = record { at = p.stays }

  pub Moves-lift : (r : Result E A) → Moves p (lift r)
  Moves-lift r = record { at = p.stays }

  pub Moves-if :
      (b : Bool) (m n : Exec S E A) → Moves p m → Moves p n → Moves p (if b then m else n)
  Moves-if true m n hm hn = hm
  Moves-if false m n hm hn = hn

module _ {S E : Type 0} (p : Progress S) where
  pub Moves-get : Moves {E = E} p get
  Moves-get = record { at = p.stays }

  check-at : (o : Option E) (s : S) → p.Goes s (check o s).1
  check-at none s = p.stays s
  check-at (some e) s = p.stays s

  pub Moves-check : (o : Option E) → Moves p (check o)
  Moves-check o = record { at = check-at o }

module _ {S E A B : Type 0} (p : Progress S) where
  pub continue-at :
      (x : Result E A × S) (f : A → Exec S E B) (s : S)
      → p.Goes s x.1
      → ((a : A) → Moves p (f a))
      → p.Goes s (continue x.0 f x.1).1
  continue-at (ok a, t) f s h k = p.joins s t (f a t).1 h ((k a).at t)
  continue-at (err e, t) f s h k = h

  pub Moves-bind :
      (m : Exec S E A) (f : A → Exec S E B)
      → Moves p m
      → ((a : A) → Moves p (f a))
      → Moves p (m >>= f)
  unfolding ◌>>=◌
  Moves-bind m f hm hf = record { at = λ s. continue-at (m s) f s (hm.at s) hf }

-- The rest of a method may use what a computed result is.
module _ {S E A B : Type 0} (p : Progress S) where
  lift-at :
      (r : Result E A) (f : A → Exec S E B) (s : S)
      → ((a : A) → r ≡ ok a → Moves p (f a))
      → p.Goes s (continue r f s).1
  lift-at (ok a) f s h = (h a refl).at s
  lift-at (err e) f s h = p.stays s

  pub Moves-lift_bind :
      (r : Result E A) (f : A → Exec S E B)
      → ((a : A) → r ≡ ok a → Moves p (f a))
      → Moves p (lift r >>= f)
  unfolding ◌>>=◌
  Moves-lift_bind r f h = record { at = λ s. lift-at r f s h }

-- A method of a part that the relation does not look at.
pub Moves-zoom :
    {S T E F A : Type 0} (p : Progress S) (focus : S → T) (replace : T → S → S) (wrap : E → F)
    (m : Exec T E A)
    → ((s : S) (t : T) → p.Goes s (replace t s))
    → Moves p (zoom focus replace wrap m)
unfolding zoom
Moves-zoom p focus replace wrap m h = record { at = λ s. h s (m (focus s)).1 }

pub ruleset moves_rules =
    (Moves-pure, Moves-raise, Moves-lift, Moves-get, Moves-check, Moves-bind, Moves-if)
