-- ===== src/Infra/Returns.antt =====
-- What an action did if it returned: one inversion for each way to build one.
use aideep_backend.Common.{◌≡◌, refl, Bool, true, false, Option, none, some}
use aideep_backend.Infra.Exception.{Exception}
use aideep_backend.Infra.Action.{
  Outcome, returned, thrown, Action, or_throw, ensure, resume, ◌>>=◌, ◌>>◌,
}

module _ {S A B : Type 0} where
  -- the value of `or_throw` was there
  pub or_throw-returned :
      (x : Option A) (e : Exception) (f : A → Action S B) (s : S) {b : B} {t : S}
      → (or_throw x e >>= f) s ≡ (returned b, t)
      → (a : A) × (x ≡ some a) × (f a s ≡ (returned b, t))
  or_throw-returned none e f s h = cc
  or_throw-returned (some a) e f s h = (a, refl, h)

  -- the first part returned, and the rest went on from its state
  pub resume-returned :
      (o : Outcome A) (f : A → Action S B) (s : S) {b : B} {t : S}
      → resume o f s ≡ (returned b, t)
      → (a : A) × (o ≡ returned a) × (f a s ≡ (returned b, t))
  resume-returned (returned a) f s h = (a, refl, h)
  resume-returned (thrown e) f s h = cc

module _ {S B : Type 0} where
  -- the test of `ensure` held
  pub ensure-returned :
      (test : Bool) (e : Exception) (k : Action S B) (s : S) {b : B} {t : S}
      → (ensure test e >> k) s ≡ (returned b, t)
      → (test ≡ true) × (k s ≡ (returned b, t))
  ensure-returned true e k s h = (refl, h)
  ensure-returned false e k s h = cc
