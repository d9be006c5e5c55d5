-- ===== src/Households/Calls.antt =====
-- What holds after a chain of calls on the tables: one rule for each form of step.
use offbook.Common.{◌≡◌, refl, Bool, true, false, Result, ok, err}
use offbook.Households.{
  Store, HouseholdError, Op, fail_if, read, return, or_error_of, reworded, continue_with, ◌>>=◌,
  ◌>>◌,
}

module _ (P : Store → Type 0) (s : Store) where
  -- A read, then the rest with what it returned.
  pub after_read :
      {A B : Type 0} (g : Store → Result HouseholdError A) (f : A → Op B)
      → P s
      → ((a : A) → g s ≡ ok a → P (f a s).1)
      → P ((read g >>= f) s).1
  unfolding ◌>>=◌ read
  after_read {A = A} {B = B} g f before rest = go (g s) refl
    where
      go : (r : Result HouseholdError A) → g s ≡ r → P (continue_with {A = A} {B = B} (r, s) f).1
      go (ok a) e = rest a e
      go (err x) e = before

  -- A guard that returns early.
  pub after_guard :
      {B : Type 0} (b : Bool) (e : HouseholdError) (k : Op B)
      → P s
      → (b ≡ false → P (k s).1)
      → P ((fail_if b e >> k) s).1
  unfolding ◌>>◌ fail_if
  after_guard true e k before rest = before
  after_guard false e k before rest = rest refl

  -- A call, then the rest on the tables that it left.
  pub after_call :
      {A B : Type 0} (m : Op A) (f : A → Op B)
      → P (m s).1
      → ((a : A) (s' : Store) → m s ≡ (ok a, s') → P s' → P (f a s').1)
      → P ((m >>= f) s).1
  unfolding ◌>>=◌
  after_call {A = A} {B = B} m f called next = go (m s) refl called
    where
      go :
          (r : Result HouseholdError A × Store)
          → m s ≡ r
          → P r.1
          → P (continue_with {A = A} {B = B} r f).1
      go (ok a, s') e h = next a s' e h
      go (err x, s') e h = h

  -- A call that returns.
  pub after_ok :
      {A B : Type 0} (m : Op A) (f : A → Op B) (a : A) (s' : Store)
      → m s ≡ (ok a, s')
      → P (f a s').1
      → P ((m >>= f) s).1
  unfolding ◌>>=◌
  after_ok m f a s' e h = rw e h

  pub after_step :
      {B : Type 0} (m : Op (Unit {0})) (k : Op B)
      → P (m s).1
      → ((s' : Store) → m s ≡ (ok tt, s') → P s' → P (k s').1)
      → P ((m >> k) s).1
  unfolding ◌>>◌
  after_step {B = B} m k called next = go (m s) refl called
    where
      go :
          (r : Result HouseholdError (Unit {0}) × Store)
          → m s ≡ r
          → P r.1
          → P (continue_with {A = Unit {0}} {B = B} r (λ _. k)).1
      go (ok _, s') e h = next s' e h
      go (err x, s') e h = h

  pub after_return :
      {A B : Type 0} (m : Op A) (f : A → B) → P (m s).1 → P ((m >>= λ a. return (f a)) s).1
  unfolding return
  after_return m f called = after_call m _ called (λ _ _ _ h. h)

  pub after_reword :
      {A : Type 0} (e : HouseholdError) (m : Op A) → P (m s).1 → P (or_error_of e m s).1
  unfolding or_error_of
  after_reword {A = A} e m called = go (m s) called
    where
      go : (r : Result HouseholdError A × Store) → P r.1 → P (reworded e r).1
      go (r, s') h = h
