-- ===== src/Prelude/Results.antt =====
-- Fallible code. An `error` result is an `Option` (`none` is nil); a value with an error a `Result`.
use Prim.Native.Nat.{ℕ, ◌≤◌}
use mathlib.Core.Path.{◌≡◌, refl}
use mathlib.Core.Bool.{Bool, true, false}
use mathlib.Core.List.{List, [], ◌∷◌}
use mathlib.Core.Option.{Option, none, some}
use native.Mathlib.Omega.{arith}
use homelab_inventory_agent.Prelude.Lists.{All}
use homelab_inventory_agent.Prelude.Tests.{ltb}

pub data Result {ℓ} (E A : Type ℓ) : Type ℓ where
  ok : A → Result E A
  err : E → Result E A

infixl 5 ◌>>=◌ ◌>>◌
abbrev pub ◌>>=◌ {ℓ} : {E A B : Type ℓ} → Result E A → (A → Result E B) → Result E B
ok a >>= f = f a
err e >>= f = err e

abbrev pub ◌>>◌ {ℓ} : {E B : Type ℓ} → Result E (Unit {ℓ}) → Result E B → Result E B
m >> k = m >>= λ _. k

-- `if err := check; err != nil { return err }` before `rest`
infixr 6 ◌then_check◌
unfoldable pub ◌then_check◌ {ℓ} : {E : Type ℓ} → Option E → Option E → Option E
none then_check rest = rest
some e then_check rest = some e

-- `if test { return e }`
abbrev pub reject_if {ℓ} : {E : Type ℓ} → Bool → E → Option E
reject_if true e = some e
reject_if false e = none

-- The first error of a loop that checks each item.
module _ {ℓ} {A E : Type ℓ} (check : A → Option E) where
  abbrev pub check_all : List A → Option E
  check_all [] = none
  check_all (x ∷ xs) = check x then_check check_all xs

module _ {ℓ} {E : Type ℓ} where
  pub reject_if-none : (b : Bool) (e : E) → reject_if b e ≡ none → b ≡ false
  reject_if-none true e h = ground arith
  reject_if-none false e h = refl

  pub then_check-none : (a b : Option E) → (a then_check b) ≡ none → (a ≡ none) × (b ≡ none)
  unfolding ◌then_check◌
  then_check-none none b h = (refl, h)
  then_check-none (some e) b h = ground arith

  pub then_check_both : (a b : Option E) → a ≡ none → b ≡ none → (a then_check b) ≡ none
  unfolding ◌then_check◌
  then_check_both none b h k = k
  then_check_both (some e) b h k = ground arith

pub check_all-none {ℓ} :
    {A E : Type ℓ} (check : A → Option E) (xs : List A)
    → check_all check xs ≡ none
    → All (λ x. check x ≡ none) xs
check_all-none check [] h = tt
check_all-none check (x ∷ xs) h =
    let (hx, hxs) = then_check-none (check x) (check_all check xs) h in
    (hx, check_all-none check xs hxs)

pub check_all_ok {ℓ} :
    {A E : Type ℓ} (check : A → Option E) (xs : List A)
    → All (λ x. check x ≡ none) xs
    → check_all check xs ≡ none
check_all_ok check [] h = refl
check_all_ok check (x ∷ xs) h = then_check_both (check x) _ h.0 (check_all_ok check xs h.1)

module _ {ℓ} {E : Type ℓ} where
  -- `if n > k { return e }` before `rest`: passed exactly when `n ≤ k`.
  pub limit-none :
      (k n : ℕ) (e : E) (rest : Option E)
      → (reject_if (ltb k n) e then_check rest) ≡ none
      → (n ≤ k) × (rest ≡ none)
  unfolding ◌then_check◌
  limit-none k n e rest h = ground arith

  pub limit_ok :
      (k n : ℕ) (e : E) (rest : Option E)
      → n ≤ k
      → rest ≡ none
      → (reject_if (ltb k n) e then_check rest) ≡ none
  unfolding ◌then_check◌
  limit_ok k n e rest h r = ground arith

  -- A row of `if test { return e }`.
  abbrev pub first_failed : List (Bool × E) → Option E
  first_failed [] = none
  first_failed ((test, e) ∷ rest) = reject_if test e then_check first_failed rest

  pub first_failed-none :
      (checks : List (Bool × E)) → first_failed checks ≡ none → All (λ c. c.0 ≡ false) checks
  first_failed-none [] h = tt
  first_failed-none ((test, e) ∷ rest) h =
      let (passed, more) = then_check-none (reject_if test e) (first_failed rest) h in
      (reject_if-none test e passed, first_failed-none rest more)

  pub first_failed_ok :
      (checks : List (Bool × E)) → All (λ c. c.0 ≡ false) checks → first_failed checks ≡ none
  unfolding ◌then_check◌
  first_failed_ok [] h = refl
  first_failed_ok ((test, e) ∷ rest) (passed, more) = rw passed (first_failed_ok rest more)

-- An error passed on inside another (`%w`).
abbrev pub wrap {ℓ} : {E F : Type ℓ} → (E → F) → Option E → Option F
wrap f none = none
wrap f (some e) = some (f e)

pub wrap-none {ℓ} : {E F : Type ℓ} (f : E → F) (o : Option E) → wrap f o ≡ none → o ≡ none
wrap-none f none h = refl
wrap-none f (some e) h = ground arith
