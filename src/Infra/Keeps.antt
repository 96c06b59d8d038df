-- ===== src/Infra/Keeps.antt =====
-- Relations between the state before and after an action, one rule for each way to build one.
use aideep_backend.Common.{Bool, true, false, Option, none, some}
use aideep_backend.Infra.Exception.{Exception}
use aideep_backend.Infra.Action.{
  Outcome, returned, thrown, Action, pure, throw, gets, or_throw, ensure, resume, ◌>>=◌, ◌>>◌,
}

-- `m` keeps `P`, whether it returns or throws.
pub record Keeps {S A : Type 0} (P : S → Type 0) (m : Action S A) : Type 0 where
  pub at : (s : S) → P s → P (m s).1

module _ {S : Type 0} {P : S → Type 0} where
  pub Keeps-pure : {A : Type 0} (a : A) → Keeps P (pure a)
  Keeps-pure a = record { at = λ s h. h }

  pub Keeps-throw : {A : Type 0} (e : Exception) → Keeps P (throw {A = A} e)
  Keeps-throw e = record { at = λ s h. h }

  pub Keeps-gets : {A : Type 0} (f : S → A) → Keeps P (gets f)
  Keeps-gets f = record { at = λ s h. h }

  pub Keeps-or_throw : {A : Type 0} (o : Option A) (e : Exception) → Keeps P (or_throw o e)
  Keeps-or_throw none e = Keeps-throw e
  Keeps-or_throw (some a) e = Keeps-pure a

  pub Keeps-ensure : (b : Bool) (e : Exception) → Keeps P (ensure b e)
  Keeps-ensure true e = record { at = λ s h. h }
  Keeps-ensure false e = record { at = λ s h. h }

  pub Keeps-resume_after :
      {A B : Type 0} (o : Outcome A) (f : A → Action S B) (s : S)
      → P s
      → ((a : A) → Keeps P (f a))
      → P (resume o f s).1
  Keeps-resume_after (returned a) f s h k = (k a).at s h
  Keeps-resume_after (thrown e) f s h k = h

  Keeps-resume :
      {A B : Type 0} (o : Outcome A) (f : A → Action S B)
      → ((a : A) → Keeps P (f a))
      → Keeps P (resume o f)
  Keeps-resume (returned a) f k = record { at = (k a).at }
  Keeps-resume (thrown e) f k = record { at = λ s h. h }

  pub Keeps-bind :
      {A B : Type 0} (m : Action S A) (f : A → Action S B)
      → Keeps P m
      → ((a : A) → Keeps P (f a))
      → Keeps P (m >>= f)
  Keeps-bind m f km kf = record { at = λ s h. (Keeps-resume (m s).0 f kf).at (m s).1 (km.at s h) }

  pub Keeps-then :
      {B : Type 0} (m : Action S (Unit {0})) (k : Action S B)
      → Keeps P m
      → Keeps P k
      → Keeps P (m >> k)
  Keeps-then m k km kk = Keeps-bind m (λ _. k) km (λ _. kk)

pub ruleset keeps_rules =
    (Keeps-pure, Keeps-throw, Keeps-gets, Keeps-or_throw, Keeps-ensure, Keeps-bind, Keeps-then)

-- From a state where `P` holds `m` leads to one where `Q` does, whether it returns or throws.
pub record Leads {S A : Type 0} (P Q : S → Type 0) (m : Action S A) : Type 0 where
  pub at : (s : S) → P s → Q (m s).1

module _ {S : Type 0} {P Q : S → Type 0} where
  Leads-resume :
      {A B : Type 0} (o : Outcome A) (f : A → Action S B) (s : S)
      → P s
      → ((t : S) → P t → Q t)
      → ((a : A) → Leads P Q (f a))
      → Q (resume o f s).1
  Leads-resume (returned a) f s h weaken k = (k a).at s h
  Leads-resume (thrown e) f s h weaken k = weaken s h

  pub Leads-bind :
      {A B : Type 0} (m : Action S A) (f : A → Action S B)
      → Keeps P m
      → ((t : S) → P t → Q t)
      → ((a : A) → Leads P Q (f a))
      → Leads P Q (m >>= f)
  Leads-bind m f km weaken kf = record {
    at = λ s h. Leads-resume (m s).0 f (m s).1 (km.at s h) weaken kf;
  }

  -- a first step that establishes `Q`, and a rest that keeps it
  pub Leads-step :
      {A B : Type 0} (m : Action S A) (f : A → Action S B)
      → Leads P Q m
      → ((a : A) → Keeps Q (f a))
      → Leads P Q (m >>= f)
  Leads-step m f km kf = record { at = λ s h. Keeps-resume_after (m s).0 f (m s).1 (km.at s h) kf }
