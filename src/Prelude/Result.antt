-- ===== src/Prelude/Result.antt =====
-- The outcome of code that may throw: a value, or the error that was thrown.
use mathlib.Core.Path.{◌≡◌, refl}
use hulumi.Prelude.Tests.{if◌then◌else◌}
use mathlib.Core.Bool.{Bool, true, false}

pub data Result {ℓ} (E A : Type ℓ) : Type ℓ where
  ok : A → Result E A
  err : E → Result E A

infixl 5 ◌>>=◌ ◌>>◌
abbrev pub ◌>>=◌ {ℓ} : {E A B : Type ℓ} → Result E A → (A → Result E B) → Result E B
ok a >>= f = f a
err e >>= f = err e

abbrev pub ◌>>◌ : {E B : Type 0} → Result E (Unit {0}) → Result E B → Result E B
m >> k = m >>= λ _. k

-- `if (bad) throw e;`
abbrev pub throw_if : {E : Type 0} → Bool → E → Result E (Unit {0})
throw_if true e = err e
throw_if false e = ok tt

-- `if (!test) throw e; return a;`
pub if-eq-ok :
    {E A : Type 0} (test : Bool) (a r : A) (e : E)
    → (if test then ok a else err e) ≡ ok r
    → (test ≡ true) × (a ≡ r)
if-eq-ok true a r e h = (refl, cc)
if-eq-ok false a r e h = cc

pub ok-injective : {E A : Type 0} (a b : A) → (m : Result E A) → m ≡ ok a → m ≡ ok b → a ≡ b
ok-injective a b m h k = cc

pub bind-eq-ok :
    {E A B : Type 0} (m : Result E A) (f : A → Result E B) (b : B)
    → (m >>= f) ≡ ok b
    → (a : A) × (m ≡ ok a) × (f a ≡ ok b)
bind-eq-ok (ok a) f b h = (a, refl, h)
bind-eq-ok (err e) f b h = cc

-- `if (bad) throw e;`, and the rest.
pub if_err-eq-ok :
    {E A : Type 0} (bad : Bool) (e : E) (m : Result E A) (a : A)
    → (if bad then err e else m) ≡ ok a
    → (bad ≡ false) × (m ≡ ok a)
if_err-eq-ok true e m a h = cc
if_err-eq-ok false e m a h = (refl, h)
