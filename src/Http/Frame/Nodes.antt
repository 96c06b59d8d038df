-- ===== src/Http/Frame/Nodes.antt =====
-- What the requests of node/node.service.ts other than deletion do to the edges.
use aideep_backend.Infra.Rows.{Json}
use aideep_backend.Common.{String, Bool, true, false, Option, List, [], ◌∷◌}
use aideep_backend.Edge.Service.Acyclic.{EdgesAcyclic}
use aideep_backend.Infra.Keeps.{Keeps, Keeps-pure, Keeps-then}
use aideep_backend.Infra.Platform.{Platform}
use aideep_backend.Infra.World.{broadcast}
use aideep_backend.Node.Frame.{
  Keeps-node_permission, Keeps-check_workspace, Keeps-select_node_by_id, Keeps-select_nodes_by_ids,
  Keeps-select_all_descendant_ids, Keeps-update_node_position_delta, Keeps-insert_node,
}
use aideep_backend.Node.Repository.{NodeOf, update_node}
use aideep_backend.Node.Service as Node
use aideep_backend.Node.Service.{NodeMoveBody, UpdateNodeMetaBody}
use aideep_backend.Http.Frame.{Keeps-tell, Keeps-change, frame_rules}

module _ (P : Platform) where
  pub Keeps-create_node :
      (node : Node.Node P.Num) → Keeps (EdgesAcyclic P) (Node.create_node P node)
  unfolding Node.create_node
  Keeps-create_node node =
      search (
        frame_rules,
        Keeps-node_permission P,
        Keeps-insert_node P {Q = EdgesAcyclic P} (λ w n q. q),
      )

  Keeps-move_descendants :
      (ws : String) (ids : List String) (x y : P.Num)
      → Keeps (EdgesAcyclic P) (Node.move_descendants P ws ids x y)
  unfolding Node.move_descendants
  Keeps-move_descendants ws [] x y = Keeps-pure tt
  Keeps-move_descendants ws (id ∷ ids) x y =
      Keeps-update_node_position_delta P (λ w n q. q) ws (id ∷ ids) x y

  pub Keeps-update_node_position :
      (body : NodeMoveBody P.Num) (user_id ws id : String)
      → Keeps (EdgesAcyclic P) (Node.update_node_position P body user_id ws id)
  unfolding Node.update_node_position
  Keeps-update_node_position body user_id ws id =
      search
        (
          frame_rules,
          Keeps-node_permission P,
          Keeps-select_node_by_id P,
          Keeps-select_all_descendant_ids P,
          Keeps-move_descendants,
        )
        depth 12

  Keeps-recolour_all :
      (ws user_id : String) (color text_color : Option Json) (ds : List (NodeOf P))
      → Keeps (EdgesAcyclic P) (Node.recolour_all P ws user_id color text_color ds)
  unfolding Node.recolour_all
  Keeps-recolour_all ws user_id color text_color [] = Keeps-pure tt
  Keeps-recolour_all ws user_id color text_color (d ∷ ds) =
      Keeps-then (update_node P ws d.node_id _) _ (Keeps-change P ws d.node_id _) (
        Keeps-then (broadcast P _) _ (Keeps-tell P _)
          (Keeps-recolour_all ws user_id color text_color ds))

  Keeps-recolour_descendants :
      (ws user_id : String) (body : UpdateNodeMetaBody) (ids : List String)
      → Keeps (EdgesAcyclic P) (Node.recolour_descendants P ws user_id body ids)
  unfolding Node.recolour_descendants
  Keeps-recolour_descendants ws user_id body [] = Keeps-pure tt
  Keeps-recolour_descendants ws user_id body (id ∷ ids) =
      search (frame_rules, Keeps-select_nodes_by_ids P, Keeps-recolour_all)

  Keeps-propagate_colours :
      (all : Bool) (user_id id ws : String) (body : UpdateNodeMetaBody)
      → Keeps (EdgesAcyclic P) (Node.propagate_colours P all user_id id ws body)
  unfolding Node.propagate_colours
  Keeps-propagate_colours false user_id id ws body = Keeps-pure tt
  Keeps-propagate_colours true user_id id ws body =
      search (frame_rules, Keeps-select_all_descendant_ids P, Keeps-recolour_descendants)

  pub Keeps-update_node_meta :
      (user_id id ws : String) (body : UpdateNodeMetaBody)
      → Keeps (EdgesAcyclic P) (Node.update_node_meta P user_id id ws body)
  unfolding Node.update_node_meta
  Keeps-update_node_meta user_id id ws body =
      search
        (frame_rules, Keeps-node_permission P, Keeps-select_node_by_id P, Keeps-propagate_colours)
        depth 12

  pub Keeps-query_detail_node :
      (ws id user_id : String) → Keeps (EdgesAcyclic P) (Node.query_detail_node P ws id user_id)
  unfolding Node.query_detail_node
  Keeps-query_detail_node ws id user_id =
      search (frame_rules, Keeps-check_workspace P, Keeps-select_node_by_id P)
