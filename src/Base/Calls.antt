-- ===== src/Base/Calls.antt =====
-- A Go call returns a value or an error; a call on a shared store also leaves the store changed.
use mathlib.Core.Path.{◌≡◌, refl}
use mathlib.Core.Logic.{◌⊎◌, inl, inr}

pub data Outcome (E A : Type 0) : Type 0 where
  ok : A → Outcome E A
  err : E → Outcome E A

-- A call on a store of type `S`.
abbrev pub Call : Type 0 → Type 0 → Type 0 → Type 0
Call S E A = S → S × Outcome E A

module _ {S E : Type 0} where
  abbrev pub return : {A : Type 0} → A → Call S E A
  return a s = (s, ok a)

  abbrev pub throw : {A : Type 0} → E → Call S E A
  throw e s = (s, err e)

  -- A result that depends on no store, and a read.
  abbrev pub lift : {A : Type 0} → Outcome E A → Call S E A
  lift o s = (s, o)

  abbrev pub ask : {A : Type 0} → (S → Outcome E A) → Call S E A
  ask f s = (s, f s)

  abbrev pub continue : {A B : Type 0} → (A → Call S E B) → S → Outcome E A → S × Outcome E B
  continue f s (ok a) = f a s
  continue f s (err e) = (s, err e)

  infixl 5 ◌>>=◌ ◌>>◌
  abbrev pub ◌>>=◌ : {A B : Type 0} → Call S E A → (A → Call S E B) → Call S E B
  ◌>>=◌ m f s = continue f (m s).0 (m s).1

  abbrev pub ◌>>◌ : {B : Type 0} → Call S E (Unit {0}) → Call S E B → Call S E B
  m >> k = m >>= λ _. k

-- The inversion of a successful call that begins with a result or a read.
pub lift_ok :
    {S E A B : Type 0} (o : Outcome E A) (f : A → Call S E B) (s s' : S) (b : B)
    → (lift o >>= f) s ≡ (s', ok b)
    → (a : A) × (o ≡ ok a) × (f a s ≡ (s', ok b))
lift_ok (ok a) f s s' b h = (a, refl, h)
lift_ok (err e) f s s' b h = cc

-- The result of the call is the same at every store.
abbrev pub IsSteady : {S E A : Type 0} → Call S E A → Type 0
IsSteady {S} m = (s s' : S) → (m s).1 ≡ (m s').1

pub lift-IsSteady :
    {S E A B : Type 0} (o : Outcome E A) (f : A → Call S E B)
    → ((a : A) → IsSteady (f a))
    → IsSteady (lift o >>= f)
lift-IsSteady (ok a) f h = h a
lift-IsSteady (err e) f h = λ s s'. refl

-- Wrap the error of an inner call.
abbrev pub map_err : {E F A : Type 0} → (E → F) → Outcome E A → Outcome F A
map_err f (ok a) = ok a
map_err f (err e) = err (f e)

pub Outcome-cases :
    {E A : Type 0} (o : Outcome E A) → ((a : A) × (o ≡ ok a)) ⊎ ((e : E) × (o ≡ err e))
Outcome-cases (ok a) = inl (a, refl)
Outcome-cases (err e) = inr (e, refl)

pub map_err_ok :
    {E F A : Type 0} (f : E → F) (o : Outcome E A) (a : A) → map_err f o ≡ ok a → o ≡ ok a
map_err_ok f (ok b) a h = cc
map_err_ok f (err e) a h = cc
