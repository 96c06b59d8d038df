-- ===== src/Infra/Frame.antt =====
-- What the calls of Redis and of the gateway leave alone, and the outcome of a transaction.
use aideep_backend.Common.{String, ◌≡◌, refl, Bool, true, false, List, [], ◌∷◌, ◌++◌, sym}
use aideep_backend.Infra.Action.{Outcome, returned, thrown}
use aideep_backend.Infra.Keeps.{Keeps}
use aideep_backend.Infra.Platform.{Platform}
use aideep_backend.Infra.Redis.{Expiry}
use aideep_backend.Infra.World.{
  World, Handler, attempt, redis_get, redis_set, redis_del, broadcast, commit, settle, joined,
  run_in_transaction,
}
use aideep_backend.Ws.Event.{WsEvent}

-- A property of the database, for every state of the rest.
pub record IsData (P : Platform) (Q : World P → Type 0) : Type 0 where
  pub same :
      (v w : World P)
      → v.nodes ≡ w.nodes
      → v.edges ≡ w.edges
      → v.members ≡ w.members
      → v.workspaces ≡ w.workspaces
      → v.users ≡ w.users
      → Q v
      → Q w

-- a property that mentions neither Redis nor its outages
module _ (P : Platform) {Q : World P → Type 0}
    (free : (w : World P) (redis : P.redis.Store) (outages : List Bool)
      → Q w
      → Q (record w { redis = redis; outages = outages })) where
  Keeps-attempt :
      {A : Type 0} (call : Handler P A)
      → ((w : World P) → Q w → Q (call w).1)
      → (outages : List Bool) (w : World P) → Q w
      → Q (attempt P outages call w).1
  Keeps-attempt call k [] w q = k w q
  Keeps-attempt call k (true ∷ outages) w q = free w w.redis outages q
  Keeps-attempt call k (false ∷ outages) w q =
      k (record w { outages = outages }) (free w w.redis outages q)

  pub Keeps-redis_get : (key : String) → Keeps Q (redis_get P key)
  unfolding redis_get
  Keeps-redis_get key = record { at = λ w q. Keeps-attempt _ (λ v p. p) w.outages w q }

  pub Keeps-redis_set : (key value : String) (e : Expiry) → Keeps Q (redis_set P key value e)
  unfolding redis_set
  Keeps-redis_set key value e = record {
    at = λ w q.
        Keeps-attempt _ (λ v p. free v (P.redis.set v.redis key value e) v.outages p) w.outages w q;
  }

  pub Keeps-redis_del : (key : String) → Keeps Q (redis_del P key)
  unfolding redis_del
  Keeps-redis_del key = record {
    at = λ w q. Keeps-attempt _ (λ v p. free v (P.redis.del v.redis key) v.outages p) w.outages w q;
  }

-- a property that does not mention what was broadcast
module _ (P : Platform) {Q : World P → Type 0}
    (free : (w : World P) (sent : List (WsEvent P.Num)) → Q w → Q (record w { sent = sent })) where
  pub Keeps-broadcast : (e : WsEvent P.Num) → Keeps Q (broadcast P e)
  unfolding broadcast
  Keeps-broadcast e = record { at = λ w q. free w (w.sent ++ e ∷ []) q }

module _ (P : Platform) {Q : World P → Type 0} (d : IsData P Q) where
  -- A transaction keeps what its body keeps: it ends as the body ended, or where it began.
  pub Keeps-run_in_transaction :
      {A : Type 0} (fn : Handler P A) → Keeps Q fn → Keeps Q (run_in_transaction P fn)
  unfolding run_in_transaction
  Keeps-run_in_transaction fn k = record { at = λ w q. in_either w.in_transaction w q }
    where
      committed :
          {A : Type 0} (w : World P) (outages : List Bool) (a : A) (after : World P)
          → Q w
          → Q after
          → Q (commit P outages w a after).1
      committed w [] a after q q' = d.same after _ refl refl refl refl refl q'
      committed w (false ∷ outages) a after q q' = d.same after _ refl refl refl refl refl q'
      committed w (true ∷ outages) a after q q' =
          d.same w _ (sym (P.nodes.roll_back_start w.nodes after.nodes))
            (sym (P.edges.roll_back_start w.edges after.edges))
            (sym (P.members.roll_back_start w.members after.members))
            (sym (P.workspaces.roll_back_start w.workspaces after.workspaces))
            (sym (P.users.roll_back_start w.users after.users)) q

      settled :
          {A : Type 0} (w : World P) (o : Outcome A) (after : World P)
          → Q w
          → Q after
          → Q (settle P w o after).1
      settled w (returned a) after q q' = committed w after.outages a after q q'
      settled w (thrown e) after q q' =
          d.same w _ (sym (P.nodes.roll_back_start w.nodes after.nodes))
            (sym (P.edges.roll_back_start w.edges after.edges))
            (sym (P.members.roll_back_start w.members after.members))
            (sym (P.workspaces.roll_back_start w.workspaces after.workspaces))
            (sym (P.users.roll_back_start w.users after.users)) q

      in_either : (b : Bool) (w : World P) → Q w → Q (joined P b fn w).1
      in_either true w q = k.at w q
      in_either false w q =
          let begun : World P = record w { in_transaction = true } in
          settled w (fn begun).0 (fn begun).1 q
            (k.at begun (d.same w begun refl refl refl refl refl q))
