-- ===== src/Base/Exec.antt =====
-- Go methods that call collaborators: a step passes the state on and returns a value or an error.
-- What was written before an early return stays written.
use mathlib.Core.Path.{◌≡◌, refl}
use mathlib.Core.Bool.{Bool, true, false}

pub data Result {ℓ} (E A : Type ℓ) : Type ℓ where
  ok : A → Result E A
  err : E → Result E A

-- The value of a result, or another where it is an error.
abbrev pub value_or {ℓ} : {E A : Type ℓ} → A → Result E A → A
value_or a (ok b) = b
value_or a (err e) = a

abbrev pub Exec {ℓ} : Type ℓ → Type ℓ → Type ℓ → Type ℓ
Exec S E A = S → Result E A × S

module _ {ℓ} {S E A : Type ℓ} where
  unfoldable pub pure : A → Exec S E A
  pure a s = (ok a, s)

  abbrev pub fail : E → Exec S E A
  fail e s = (err e, s)

module _ {S E : Type 0} where
  -- An early return unless the test holds.
  unfoldable pub require : Bool → E → Exec S E (Unit {0})
  require true e s = (ok tt, s)
  require false e s = (err e, s)

module _ {ℓ} {S E A B : Type ℓ} where
  abbrev pub continue : Result E A × S → (A → Exec S E B) → Result E B × S
  continue (ok a, s) f = f a s
  continue (err e, s) f = (err e, s)

  infixl 5 ◌>>=◌
  unfoldable pub ◌>>=◌ : Exec S E A → (A → Exec S E B) → Exec S E B
  ◌>>=◌ m f s = continue (m s) f

  -- What holds after a bind: of the rest where the first step returns, of the error where it fails.
  pub after-bind {κ} :
      (Q : Result E B × S → Type κ) (m : Exec S E A) (f : A → Exec S E B) (s : S)
      → ((a : A) (t : S) → m s ≡ (ok a, t) → Q (f a t))
      → ((e : E) (t : S) → m s ≡ (err e, t) → Q (err e, t))
      → Q ((m >>= f) s)
  unfolding ◌>>=◌
  after-bind Q m f s returned failed = go (m s) refl
    where
      go : (r : Result E A × S) → m s ≡ r → Q (continue r f)
      go (ok a, t) h = returned a t h
      go (err e, t) h = failed e t h

module _ {S E B : Type 0} where
  infixl 5 ◌>>◌
  unfoldable pub ◌>>◌ : Exec S E (Unit {0}) → Exec S E B → Exec S E B
  unfolding ◌>>=◌
  m >> k = m >>= λ _. k

  -- A guard hands its test's outcome to what follows.
  pub after-require {κ} :
      (Q : Result E B × S → Type κ) (b : Bool) (e : E) (k : Exec S E B) (s : S)
      → (b ≡ true → Q (k s))
      → (b ≡ false → Q (err e, s))
      → Q ((require b e >> k) s)
  unfolding ◌>>◌ require
  after-require Q true e k s passed failed = passed refl
  after-require Q false e k s passed failed = failed refl

-- A test or a proof that names this computes with the operations.
unfoldable pub exec : Unit {0}
unfolding pure require ◌>>=◌ ◌>>◌
exec = tt
