-- ===== src/Prelude/Errors.antt =====
-- A Go pair `(value, error)` with the error as data: `err` where the code returns an error.
use mathlib.Core.Path.{◌≡◌, refl}
use mathlib.Core.Logic.{◌⊎◌, inl, inr}
use mathlib.Core.Bool.{Bool, true, false}

pub data Result (E A : Type 0) : Type 0 where
  ok : A → Result E A
  err : E → Result E A

infixl 5 ◌>>=◌ ◌>>◌
abbrev pub ◌>>=◌ : {E A B : Type 0} → Result E A → (A → Result E B) → Result E B
ok a >>= f = f a
err e >>= f = err e

abbrev pub ◌>>◌ : {E B : Type 0} → Result E (Unit {0}) → Result E B → Result E B
m >> k = m >>= λ _. k

-- `if bad { return err }`
abbrev pub reject : {E : Type 0} → Bool → E → Result E (Unit {0})
reject true e = err e
reject false e = ok tt

abbrev pub wrap_err : {E F A : Type 0} → (E → F) → Result E A → Result F A
wrap_err g (ok a) = ok a
wrap_err g (err e) = err (g e)

pub Result-cases :
    {E A : Type 0} (r : Result E A) → ((a : A) × (r ≡ ok a)) ⊎ ((e : E) × (r ≡ err e))
Result-cases (ok a) = inl (a, refl)
Result-cases (err e) = inr (e, refl)

pub bind-eq-ok :
    {E A B : Type 0} (m : Result E A) (f : A → Result E B) {b : B}
    → (m >>= f) ≡ ok b
    → (a : A) × (m ≡ ok a) × (f a ≡ ok b)
bind-eq-ok (ok a) f h = (a, refl, h)
bind-eq-ok (err e) f h = cc

-- What stands behind a test that returns an error is reached only if the test is false.
pub reject-eq-ok :
    {E A : Type 0} (b : Bool) (e : E) (k : Result E A) {a : A}
    → (reject b e >> k) ≡ ok a
    → (b ≡ false) × (k ≡ ok a)
reject-eq-ok true e k h = cc
reject-eq-ok false e k h = (refl, h)

pub wrap_err-eq-ok :
    {E F A : Type 0} (g : E → F) (m : Result E (Unit {0})) (k : Result F A) {a : A}
    → (wrap_err g m >> k) ≡ ok a
    → (m ≡ ok tt) × (k ≡ ok a)
wrap_err-eq-ok g (ok tt) k h = (refl, h)
wrap_err-eq-ok g (err e) k h = cc

pub wrap_err-bind-eq-ok :
    {E F A B : Type 0} (g : E → F) (m : Result E A) (f : A → Result F B) {b : B}
    → (wrap_err g m >>= f) ≡ ok b
    → (a : A) × (m ≡ ok a) × (f a ≡ ok b)
wrap_err-bind-eq-ok g (ok a) f h = (a, refl, h)
wrap_err-bind-eq-ok g (err e) f h = cc

pub ok-injective : {E A : Type 0} {a b : A} → ◌≡◌ {A = Result E A} (ok a) (ok b) → a ≡ b
ok-injective h = cc
