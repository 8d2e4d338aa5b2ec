-- ===== src/Exec.antt =====
-- Methods that change an object and may fail: what was written before a failure stays written, so
-- the state comes back beside the error too.
pub mod Moves
pub mod Ensures
use homelab_inventory_agent.Prelude.{◌≡◌, refl, Result, ok, err, Option, none, some, arith}

abbrev pub Exec : Type 0 → Type 0 → Type 0 → Type 0
Exec S E A = S → Result E A × S

abbrev pub pure : {S E A : Type 0} → A → Exec S E A
pure a s = (ok a, s)

abbrev pub raise : {S E A : Type 0} → E → Exec S E A
raise e s = (err e, s)

abbrev pub lift : {S E A : Type 0} → Result E A → Exec S E A
lift r s = (r, s)

abbrev pub get : {S E : Type 0} → Exec S E S
get s = (ok s, s)

abbrev pub put : {S E : Type 0} → S → Exec S E (Unit {0})
put t s = (ok tt, t)

-- `if err := check; err != nil { return err }`
abbrev pub check : {S E : Type 0} → Option E → Exec S E (Unit {0})
check none s = (ok tt, s)
check (some e) s = (err e, s)

abbrev pub continue : {S E A B : Type 0} → Result E A → (A → Exec S E B) → Exec S E B
continue (ok a) f s = f a s
continue (err e) f s = (err e, s)

infixl 5 ◌>>=◌ ◌>>◌
unfoldable pub ◌>>=◌ : {S E A B : Type 0} → Exec S E A → (A → Exec S E B) → Exec S E B
◌>>=◌ m f s = let (r, t) = m s in continue r f t

abbrev pub ◌>>◌ : {S E B : Type 0} → Exec S E (Unit {0}) → Exec S E B → Exec S E B
m >> n = m >>= λ _. n

-- What a method raises, seen by its caller as another error.
abbrev pub map_error : {E F A : Type 0} → (E → F) → Result E A → Result F A
map_error f (ok a) = ok a
map_error f (err e) = err (f e)

-- A method of a part of the object: `focus` reads the part, `replace` puts it back.
unfoldable pub zoom :
    {S T E F A : Type 0} → (S → T) → (T → S → S) → (E → F) → Exec T E A → Exec S F A
zoom focus replace wrap m s = let (r, t) = m (focus s) in (map_error wrap r, replace t s)

continue-eq-ok :
    {S E A B : Type 0} (x : Result E A × S) (f : A → Exec S E B) {b : B} {t : S}
    → continue x.0 f x.1 ≡ (ok b, t)
    → (a : A) × (u : S) × (x ≡ (ok a, u)) × (f a u ≡ (ok b, t))
continue-eq-ok (ok a, u) f h = (a, u, refl, h)
continue-eq-ok (err e, u) f h = ground arith

-- A bind that succeeded: both halves did.
pub >>=-eq-ok :
    {S E A B : Type 0} (m : Exec S E A) (f : A → Exec S E B) (s : S) {b : B} {t : S}
    → (m >>= f) s ≡ (ok b, t)
    → (a : A) × (u : S) × (m s ≡ (ok a, u)) × (f a u ≡ (ok b, t))
unfolding ◌>>=◌
>>=-eq-ok m f s h = continue-eq-ok (m s) f h

pub check-eq-ok :
    {S E : Type 0} (o : Option E) (s : S) {u : Unit {0}} {t : S}
    → check o s ≡ (ok u, t)
    → (o ≡ none) × (s ≡ t)
check-eq-ok none s h = ground arith
check-eq-ok (some e) s h = ground arith
