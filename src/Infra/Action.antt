-- ===== src/Infra/Action.antt =====
-- The body of an `async` method: it reads and writes a state, and returns or throws. What was
-- written before a throw stays written.
use aideep_backend.Common.{Bool, true, false, Option, none, some}
use aideep_backend.Infra.Exception.{Exception}

pub data Outcome {ℓ} (A : Type ℓ) : Type ℓ where
  returned : A → Outcome A
  thrown : Exception → Outcome A

abbrev pub Action {ℓ} : Type ℓ → Type ℓ → Type ℓ
Action S A = S → Outcome A × S

module _ {ℓ} {S A : Type ℓ} where
  abbrev pub pure : A → Action S A
  pure a s = (returned a, s)

  abbrev pub throw : Exception → Action S A
  throw e s = (thrown e, s)

  abbrev pub gets : (S → A) → Action S A
  gets f s = (returned (f s), s)

  -- `if (!value) throw e` for a value that may be null
  abbrev pub or_throw : Option A → Exception → Action S A
  or_throw none e = throw e
  or_throw (some a) e = pure a

-- `if (!test) throw e`
abbrev pub ensure : {S : Type 0} → Bool → Exception → Action S (Unit {0})
ensure true e s = (returned tt, s)
ensure false e s = (thrown e, s)

abbrev pub modify : {S : Type 0} → (S → S) → Action S (Unit {0})
modify f s = (returned tt, f s)

abbrev pub resume {ℓ} : {S A B : Type ℓ} → Outcome A → (A → Action S B) → Action S B
resume (returned a) f s = f a s
resume (thrown e) f s = (thrown e, s)

infixl 5 ◌>>=◌ ◌>>◌
abbrev pub ◌>>=◌ {ℓ} : {S A B : Type ℓ} → Action S A → (A → Action S B) → Action S B
◌>>=◌ m f s = resume (m s).0 f (m s).1

abbrev pub ◌>>◌ : {S B : Type 0} → Action S (Unit {0}) → Action S B → Action S B
m >> k = m >>= λ _. k
