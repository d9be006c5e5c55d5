-- ===== src/Common/Results.antt =====
-- Go's `(value, error)` results, with `do` for a chain of early returns.
use mathlib.Core.Path.{◌≡◌, subst}
use mathlib.Core.Bool.{Bool, true, false}

pub data Result (E A : Type 0) : Type 0 where
  ok : A → Result E A
  err : E → Result E A

infixl 5 ◌>>=◌ ◌>>◌
abbrev pub ◌>>=◌ : {E A B : Type 0} → Result E A → (A → Result E B) → Result E B
ok a >>= f = f a
err e >>= f = err e

abbrev pub ◌>>◌ : {E B : Type 0} → Result E (Unit {0}) → Result E B → Result E B
m >> k = m >>= λ _. k

-- `if bad { return e }`
abbrev pub fail_if : {E : Type 0} → Bool → E → Result E (Unit {0})
fail_if true e = err e
fail_if false e = ok tt

-- What holds of the value, if there is one.
abbrev pub Ensures : {E A : Type 0} → (A → Type 0) → Result E A → Type 0
Ensures P (ok a) = P a
Ensures P (err e) = Unit {0}

-- A check in front of the rest.
pub after_check :
    {E A B : Type 0} (P : B → Type 0) (m : Result E A) (f : A → Result E B)
    → ((a : A) → Ensures P (f a))
    → Ensures P (m >>= f)
after_check P (ok a) f h = h a
after_check P (err e) f h = tt

pub Ensures-ok :
    {E A : Type 0} (P : A → Type 0) (r : Result E A) (a : A) → Ensures P r → r ≡ ok a → P a
Ensures-ok P r a h e = subst (Ensures P) e h

-- A check in front of the rest, by what it ensures.
pub after_check_of :
    {E A B : Type 0} (Q : A → Type 0) (P : B → Type 0) (m : Result E A) (f : A → Result E B)
    → Ensures Q m
    → ((a : A) → Q a → Ensures P (f a))
    → Ensures P (m >>= f)
after_check_of Q P (ok a) f q h = h a q
after_check_of Q P (err e) f q h = tt

pub Ensures-both :
    {E A : Type 0} (P Q : A → Type 0) (m : Result E A)
    → Ensures P m
    → Ensures Q m
    → Ensures (λ a. P a × Q a) m
Ensures-both P Q (ok a) h k = (h, k)
Ensures-both P Q (err e) h k = tt
