-- ===== src/Edge/Service/Atomic.antt =====
-- `connectNodes` (edge/edge.service.ts) and `deleteNode` (node/node.service.ts) run in a transaction:
-- what is left behind where they throw.
use aideep_backend.Common.{String, ◌≡◌, refl, ap, List, [], ◌∷◌, ◌++◌, ◌⊎◌, true, false}
use aideep_backend.Infra.Exception.{Exception, uncommitted}
use aideep_backend.Infra.Action.{thrown, pure, or_throw, ◌>>◌}
use aideep_backend.Infra.Keeps.{Keeps, Leads, Keeps-or_throw}
use aideep_backend.Infra.Frame.{Keeps-redis_del}
use aideep_backend.Infra.Failure.{
  OnFailure, OnFailure-bind, OnFailure-then, OnFailure-silent, OnReturn, OnReturn-bind,
  OnReturn-then, OnReturn-Leads, SameData, run_in_transaction-thrown, OnFailure-run_in_transaction,
}
use aideep_backend.Infra.Platform.{Platform}
use aideep_backend.Infra.World.{World, redis_del, broadcast}
use aideep_backend.Ws.Event.{WsEvent}
use aideep_backend.Edge.Repository.{Edge, create_edge, delete_edges_by_node_id}
use aideep_backend.Edge.Service.{check_connection, make_connection, connect_nodes}
use aideep_backend.Edge.Service.Checks.{check_connection-reads}
use aideep_backend.Node.Frame.{
  Keeps-propagate_depth, Keeps-delete_node_row, Keeps-select_node_by_id, Keeps-node_permission,
}
use aideep_backend.Node.Repository.{NodeOf, select_node_by_id, delete_node_row}
use aideep_backend.Node.Service.{
  check_edit_permission, delete_node, delete_node_body, propagate_depth,
}

module _ (P : Platform) (sent : List (WsEvent P.Num)) where
  -- nothing was broadcast since `sent`
  abbrev Sent : World P → Type 0
  Sent w = w.sent ≡ sent

  Keeps-create_edge : (dto : Edge) → Keeps Sent (create_edge P dto)
  unfolding create_edge
  Keeps-create_edge dto = record { at = λ w q. q }

  Keeps-delete_edges : (node_id : String) → Keeps Sent (delete_edges_by_node_id P node_id)
  unfolding delete_edges_by_node_id
  Keeps-delete_edges node_id = record { at = λ w q. q }

  Keeps-check_connection : (dto : Edge) → Keeps Sent (check_connection P dto)
  Keeps-check_connection dto = record { at = λ w q. rw (check_connection-reads P dto w) q }

  -- a broadcast and what is returned behind it never throw
  last_broadcast :
      {A : Type 0} (e : WsEvent P.Num) (a : A) → OnFailure Sent (broadcast P e >> pure a)
  unfolding broadcast
  last_broadcast e a = OnFailure-silent _ (λ w. (a, refl))

  make_connection-OnFailure :
      (dto : Edge) (source : NodeOf P) → OnFailure Sent (make_connection P dto source)
  unfolding make_connection
  make_connection-OnFailure dto source =
      OnFailure-then (propagate_depth P dto.workspace_id dto.target_id source.depth true) _
        (Keeps-propagate_depth P (λ w n a. a) dto.workspace_id dto.target_id source.depth true)
        (OnFailure-bind (create_edge P dto) _ (Keeps-create_edge dto) (λ r.
          OnFailure-then (redis_del P _) _ (Keeps-redis_del P (λ w r o q. q) _)
            (last_broadcast _ _)))

  -- the one event, where the body returned
  abbrev SentOne : World P → Type 0
  SentOne w = (event : WsEvent P.Num) × (w.sent ≡ sent ++ event ∷ [])

  broadcast-SentOne :
      {A : Type 0} (event : WsEvent P.Num) (a : A)
      → Leads Sent SentOne (broadcast P event >> pure a)
  unfolding broadcast
  broadcast-SentOne event a = record { at = λ w q. (event, ap (λ l. l ++ event ∷ []) q) }

  make_connection-SentOne :
      (dto : Edge) (source : NodeOf P) → OnReturn Sent SentOne (make_connection P dto source)
  unfolding make_connection
  make_connection-SentOne dto source =
      OnReturn-then (propagate_depth P dto.workspace_id dto.target_id source.depth true) _
        (Keeps-propagate_depth P (λ w n a. a) dto.workspace_id dto.target_id source.depth true)
        (OnReturn-bind (create_edge P dto) _ (Keeps-create_edge dto) (λ r.
          OnReturn-then (redis_del P _) _ (Keeps-redis_del P (λ w r o q. q) _)
            (OnReturn-Leads _ (broadcast-SentOne _ _))))

  delete_node_body-OnFailure :
      (workspace_id user_id node_id : String)
      → OnFailure Sent (delete_node_body P workspace_id user_id node_id)
  unfolding delete_node_body
  delete_node_body-OnFailure workspace_id user_id node_id =
      OnFailure-then (check_edit_permission P user_id workspace_id) _
        (Keeps-node_permission P user_id workspace_id)
        (OnFailure-bind (select_node_by_id P workspace_id node_id) _
          (Keeps-select_node_by_id P workspace_id node_id)
          (λ found. OnFailure-bind (or_throw found _) _ (Keeps-or_throw found _) (λ _.
            OnFailure-then (delete_edges_by_node_id P node_id) _ (Keeps-delete_edges node_id) (
              OnFailure-then (delete_node_row P node_id) _
                (Keeps-delete_node_row P (λ w n a. a) node_id)
                (OnFailure-then (redis_del P _) _ (Keeps-redis_del P (λ w r o q. q) _)
                  (last_broadcast _ _))))))

  delete_node_body-SentOne :
      (workspace_id user_id node_id : String)
      → OnReturn Sent SentOne (delete_node_body P workspace_id user_id node_id)
  unfolding delete_node_body
  delete_node_body-SentOne workspace_id user_id node_id =
      OnReturn-then (check_edit_permission P user_id workspace_id) _
        (Keeps-node_permission P user_id workspace_id)
        (OnReturn-bind (select_node_by_id P workspace_id node_id) _
          (Keeps-select_node_by_id P workspace_id node_id)
          (λ found. OnReturn-bind (or_throw found _) _ (Keeps-or_throw found _) (λ _.
            OnReturn-then (delete_edges_by_node_id P node_id) _ (Keeps-delete_edges node_id) (
              OnReturn-then (delete_node_row P node_id) _
                (Keeps-delete_node_row P (λ w n a. a) node_id)
                (OnReturn-then (redis_del P _) _ (Keeps-redis_del P (λ w r o q. q) _)
                  (OnReturn-Leads _ (broadcast-SentOne _ _)))))))

-- Nothing of the request is stored, and members are sent nothing of it, but where the commit is what failed: then
-- the one event of the request has been sent before.
pub record Untouched (P : Platform) (e : Exception) (t w : World P) : Type 0 where
  pub stored : SameData P t w
  pub quiet :
      (t.sent ≡ w.sent)
      ⊎ ((e ≡ uncommitted) × ((event : WsEvent P.Num) × (t.sent ≡ w.sent ++ event ∷ [])))

module _ (P : Platform) {e : Exception} {t : World P} where
  -- If connecting two nodes throws, outside of another transaction, then every table is as it was before, whatever had been written; and no event was broadcast, unless what throws is the commit of the transaction: the one event of the request then has been broadcast, although nothing is stored.
  pub connect_nodes-thrown :
      (dto : Edge) (w : World P)
      → w.in_transaction ≡ false
      → connect_nodes P dto w ≡ (thrown e, t)
      → Untouched P e t w
  unfolding connect_nodes
  connect_nodes-thrown dto w out h = record {
    stored = run_in_transaction-thrown P _ w out h;
    quiet =
        OnFailure-run_in_transaction P {Q = Sent P w.sent} {R = SentOne P w.sent} _ (λ v q. q)
          (λ v u q. q) (λ v u o r. r)
          (OnFailure-bind (check_connection P dto) (make_connection P dto)
            (Keeps-check_connection P w.sent dto) (make_connection-OnFailure P w.sent dto))
          (OnReturn-bind (check_connection P dto) (make_connection P dto)
            (Keeps-check_connection P w.sent dto) (make_connection-SentOne P w.sent dto)).at
          w refl e t h;
  }

  -- If deleting a node throws, outside of another transaction, then every table is as it was before; and no event was broadcast, unless what throws is the commit of the transaction: the one event of the request then has been broadcast, although nothing is stored.
  pub delete_node-thrown :
      (workspace_id user_id node_id : String) (w : World P)
      → w.in_transaction ≡ false
      → delete_node P workspace_id user_id node_id w ≡ (thrown e, t)
      → Untouched P e t w
  unfolding delete_node
  delete_node-thrown workspace_id user_id node_id w out h = record {
    stored = run_in_transaction-thrown P _ w out h;
    quiet =
        OnFailure-run_in_transaction P {Q = Sent P w.sent} {R = SentOne P w.sent} _ (λ v q. q)
          (λ v u q. q) (λ v u o r. r)
          (delete_node_body-OnFailure P w.sent workspace_id user_id node_id)
          (delete_node_body-SentOne P w.sent workspace_id user_id node_id).at w refl e t h;
  }
