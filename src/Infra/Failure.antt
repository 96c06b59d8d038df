-- ===== src/Infra/Failure.antt =====
-- What stays as it was where an action throws, and what `@Transactional()` adds to that.
use aideep_backend.Common.{
  ◌≡◌, refl, ◌∙◌, Bool, true, false, arith, ap, subst, List, [], ◌∷◌, ◌⊎◌, inl, inr,
}
use aideep_backend.Infra.Exception.{Exception, uncommitted}
use aideep_backend.Infra.Action.{Outcome, returned, thrown, Action, resume, ◌>>=◌, ◌>>◌}
use aideep_backend.Infra.Keeps.{Keeps, Leads}
use aideep_backend.Infra.Platform.{Platform}
use aideep_backend.Infra.World.{
  World, Handler, roll_back, commit, settle, joined, run_in_transaction,
}

-- Where `m` throws, `Q` holds behind it if it held before.
pub record OnFailure {S A : Type 0} (Q : S → Type 0) (m : Action S A) : Type 0 where
  pub at : (s : S) → Q s → (e : Exception) (t : S) → m s ≡ (thrown e, t) → Q t

module _ {S : Type 0} {Q : S → Type 0} where
  pub OnFailure-Keeps : {A : Type 0} (m : Action S A) → Keeps Q m → OnFailure Q m
  OnFailure-Keeps m k = record {
    at = λ s q e t h. rw (← ap (λ (r : Outcome _ × S). r.1) h) (k.at s q);
  }

  OnFailure-resume :
      {A B : Type 0} (o : Outcome A) (f : A → Action S B) (s : S) (e : Exception) (t : S)
      → Q s
      → ((a : A) → OnFailure Q (f a))
      → resume o f s ≡ (thrown e, t)
      → Q t
  OnFailure-resume (returned a) f s e t q k h = (k a).at s q e t h
  OnFailure-resume (thrown x) f s e t q k h = rw (← ap (λ (r : Outcome _ × S). r.1) h) q

  pub OnFailure-bind :
      {A B : Type 0} (m : Action S A) (f : A → Action S B)
      → Keeps Q m
      → ((a : A) → OnFailure Q (f a))
      → OnFailure Q (m >>= f)
  OnFailure-bind m f km kf = record {
    at = λ s q e t h. OnFailure-resume (m s).0 f (m s).1 e t (km.at s q) kf h;
  }

  pub OnFailure-then :
      {B : Type 0} (m : Action S (Unit {0})) (k : Action S B)
      → Keeps Q m
      → OnFailure Q k
      → OnFailure Q (m >> k)
  OnFailure-then m k km kk = OnFailure-bind m (λ _. k) km (λ _. kk)

  -- what never throws
  pub OnFailure-silent :
      {A : Type 0} (m : Action S A) → ((s : S) → (a : A) × ((m s).0 ≡ returned a)) → OnFailure Q m
  OnFailure-silent m silent = record {
    at = λ s q e t h. let (a, r) = silent s in absurd (cc (r, ap (λ (r : Outcome _ × S). r.0) h));
  }

-- Where `m` returns from a state where `Q` holds, `R` holds behind it.
pub record OnReturn {S A : Type 0} (Q R : S → Type 0) (m : Action S A) : Type 0 where
  pub at : (s : S) → Q s → (a : A) (t : S) → m s ≡ (returned a, t) → R t

module _ {S : Type 0} {Q R : S → Type 0} where
  pub OnReturn-Leads : {A : Type 0} (m : Action S A) → Leads Q R m → OnReturn Q R m
  OnReturn-Leads m l = record {
    at = λ s q a t h. rw (← ap (λ (r : Outcome _ × S). r.1) h) (l.at s q);
  }

  OnReturn-resume :
      {A B : Type 0} (o : Outcome A) (f : A → Action S B) (s : S) (b : B) (t : S)
      → Q s
      → ((a : A) → OnReturn Q R (f a))
      → resume o f s ≡ (returned b, t)
      → R t
  OnReturn-resume (returned a) f s b t q k h = (k a).at s q b t h
  OnReturn-resume (thrown x) f s b t q k h = absurd (cc (ap (λ (r : Outcome _ × S). r.0) h))

  pub OnReturn-bind :
      {A B : Type 0} (m : Action S A) (f : A → Action S B)
      → Keeps Q m
      → ((a : A) → OnReturn Q R (f a))
      → OnReturn Q R (m >>= f)
  OnReturn-bind m f km kf = record {
    at = λ s q b t h. OnReturn-resume (m s).0 f (m s).1 b t (km.at s q) kf h;
  }

  pub OnReturn-then :
      {B : Type 0} (m : Action S (Unit {0})) (k : Action S B)
      → Keeps Q m
      → OnReturn Q R k
      → OnReturn Q R (m >> k)
  OnReturn-then m k km kk = OnReturn-bind m (λ _. k) km (λ _. kk)

-- the database of two states
pub record SameData (P : Platform) (v w : World P) : Type 0 where
  pub nodes : v.nodes ≡ w.nodes
  pub edges : v.edges ≡ w.edges
  pub members : v.members ≡ w.members
  pub workspaces : v.workspaces ≡ w.workspaces
  pub users : v.users ≡ w.users

module _ (P : Platform) {A : Type 0} (fn : Handler P A) (w : World P) {e : Exception}
    {t : World P} where
  -- an exception, that of the commit included, rolls the transaction back that the method has opened
  pub run_in_transaction-thrown :
      w.in_transaction ≡ false → run_in_transaction P fn w ≡ (thrown e, t) → SameData P t w
  unfolding run_in_transaction
  run_in_transaction-thrown out h =
      go (fn (record w { in_transaction = true })).0 (fn (record w { in_transaction = true })).1
        (subst (λ b. joined P b fn w ≡ (thrown e, t)) out h)
    where
      uncommitted-same :
          (outages : List Bool) (a : A) (after : World P)
          → commit P outages w a after ≡ (thrown e, t)
          → SameData P t w
      uncommitted-same [] a after h = absurd (cc h)
      uncommitted-same (false ∷ outages) a after h = absurd (cc h)
      uncommitted-same (true ∷ outages) a after h = ground (
        arith,
        P.nodes.roll_back_start w.nodes after.nodes,
        P.edges.roll_back_start w.edges after.edges,
        P.members.roll_back_start w.members after.members,
        P.workspaces.roll_back_start w.workspaces after.workspaces,
        P.users.roll_back_start w.users after.users,
      )

      go : (o : Outcome A) (after : World P) → settle P w o after ≡ (thrown e, t) → SameData P t w
      go (returned a) after h = uncommitted-same after.outages a after h
      go (thrown x) after h = ground (
        arith,
        P.nodes.roll_back_start w.nodes after.nodes,
        P.edges.roll_back_start w.edges after.edges,
        P.members.roll_back_start w.members after.members,
        P.workspaces.roll_back_start w.workspaces after.workspaces,
        P.users.roll_back_start w.users after.users,
      )

-- a transaction that has written nothing rolls back to where it began
rolled_back :
    (P : Platform) (w : World P)
    → w.in_transaction ≡ false
    → record (roll_back P w (record w { in_transaction = true })) { in_transaction = false } ≡ w
rolled_back P w out = ground (
  arith,
  P.nodes.roll_back_start w.nodes w.nodes,
  P.edges.roll_back_start w.edges w.edges,
  P.members.roll_back_start w.members w.members,
  P.workspaces.roll_back_start w.workspaces w.workspaces,
  P.users.roll_back_start w.users w.users,
)

module _ (P : Platform) {A : Type 0} where
  -- a body that throws before it writes leaves the whole state as it was
  pub run_in_transaction-refused :
      (fn : Handler P A) (w : World P) {e : Exception}
      → w.in_transaction ≡ false
      → fn (record w { in_transaction = true }) ≡ (thrown e, record w { in_transaction = true })
      → run_in_transaction P fn w ≡ (thrown e, w)
  unfolding run_in_transaction
  run_in_transaction-refused fn w {e} out h =
      ap (λ b. joined P b fn w) out
      ∙ ap (λ (r : Outcome A × World P). settle P w r.0 r.1) h
      ∙ ap {B = Outcome A × World P} (λ v. (thrown e, v)) (rolled_back P w out)

module _ (P : Platform) {Q : World P → Type 0} where
  -- A property that says nothing of the database survives the roll-back too. What it does not survive is
  -- a commit that fails behind a body that returned: then `R` holds, which the body leaves.
  pub OnFailure-run_in_transaction :
      {A : Type 0} {R : World P → Type 0} (fn : Handler P A)
      → ((v : World P) → Q v → Q (record v { in_transaction = true }))
      → ((v w : World P) → Q w → Q (record (roll_back P v w) { in_transaction = false }))
      → ((v w : World P) (outages : List Bool)
          → R w
          → R (record (roll_back P v w) { in_transaction = false; outages = outages }))
      → OnFailure Q fn
      → ((v : World P) → Q v → (a : A) (t : World P) → fn v ≡ (returned a, t) → R t)
      → (w : World P) → Q w
      → (e : Exception) (t : World P) → run_in_transaction P fn w ≡ (thrown e, t)
      → Q t ⊎ ((e ≡ uncommitted) × R t)
  unfolding run_in_transaction
  OnFailure-run_in_transaction {A} {R} fn begun ended undone k done w q e t h =
      in_either w.in_transaction h
    where
      failed :
          (outages : List Bool) (a : A) (after : World P)
          → R after
          → commit P outages w a after ≡ (thrown e, t)
          → (e ≡ uncommitted) × R t
      failed [] a after r h = absurd (cc h)
      failed (false ∷ outages) a after r h = absurd (cc h)
      failed (true ∷ outages) a after r h =
          (cc h, rw (← ap (λ (r : Outcome A × World P). r.1) h) (undone w after outages r))

      settled :
          (o : Outcome A) (after : World P)
          → ((x : Exception) → o ≡ thrown x → Q after)
          → ((a : A) → o ≡ returned a → R after)
          → settle P w o after ≡ (thrown e, t)
          → Q t ⊎ ((e ≡ uncommitted) × R t)
      settled (returned a) after q r h = inr (failed after.outages a after (r a refl) h)
      settled (thrown x) after q r h =
          inl (rw (← ap (λ (r : Outcome A × World P). r.1) h) (ended w after (q x refl)))

      in_either : (b : Bool) → joined P b fn w ≡ (thrown e, t) → Q t ⊎ ((e ≡ uncommitted) × R t)
      in_either true h = inl (k.at w q e t h)
      in_either false h =
          let start : World P = record w { in_transaction = true } in
          settled (fn start).0 (fn start).1
            (λ x r. k.at start (begun w q) x (fn start).1 (λ i. (r i, (fn start).1)))
            (λ a r. done start (begun w q) a (fn start).1 (λ i. (r i, (fn start).1))) h
