-- ===== src/Node/Depth.antt =====
-- `propagateDepth` of node/node.service.ts: the depths of a node and of every node below it.
use aideep_backend.Common.{
  String, ◌≡◌, ap, ◌∙◌, Bool, false, Option, some, List, [], ◌∷◌, map, arith, any_of_found,
  contains, ◌==◌, if◌then◌else◌, map-map_eq, eq-cases, inl, inr,
}
use aideep_backend.Infra.Action.{returned}
use aideep_backend.Infra.Platform.{Platform}
use aideep_backend.Infra.Rows.Int.{ℤ}
use aideep_backend.Infra.World.{World}
use aideep_backend.Node.Descendants.{live_links, descendants}
use aideep_backend.Node.Repository.{
  NodeOf, is_node, is_one_of, deepened, increas_depth, select_all_descendant_ids,
  increase_depth_many,
}
use aideep_backend.Node.Service.{depth_change, propagate_depth, deepen_descendants}

module _ (P : Platform) (ws id : String) (amount : ℤ) where
  abbrev pub is_row : NodeOf P → Bool
  is_row r = r.node_id == id

  abbrev pub deepen_nodes : List String → P.nodes.Store → P.nodes.Store
  deepen_nodes [] nodes = nodes
  deepen_nodes (d ∷ ids) nodes =
      P.nodes.update_many nodes (is_one_of ws (d ∷ ids)) (deepened amount)

  -- the rows behind the change
  abbrev pub all_deepened : List String → P.nodes.Store → P.nodes.Store
  all_deepened ids nodes = deepen_nodes ids (P.nodes.update_many nodes is_row (deepened amount))

  -- what the change makes of a row
  abbrev pub deepened_row : List String → NodeOf P → NodeOf P
  deepened_row ids r =
      if is_row r then deepened amount r else if is_one_of ws ids r then deepened amount r else r

  abbrev first : NodeOf P → NodeOf P
  first r = if is_row r then deepened amount r else r

  deepened_row-twice :
      (ids : List String) (r : NodeOf P)
      → contains ids id ≡ false
      → (if is_one_of ws ids (first r) then deepened amount (first r) else first r)
        ≡ deepened_row ids r
  deepened_row-twice ids r apart = elim (eq-cases r.node_id id) [
    | inl (t, e) ↦
        let elsewhere : contains ids r.node_id ≡ false = ap (contains ids) e ∙ apart in ground arith
    | inr (f, _) ↦ ground arith
  ]

  pub all_deepened-rows :
      (ids : List String) (nodes : P.nodes.Store)
      → contains ids id ≡ false
      → P.nodes.rows (all_deepened ids nodes) ≡ map (deepened_row ids) (P.nodes.rows nodes)
  all_deepened-rows [] nodes apart = P.nodes.update_many_rows nodes is_row (deepened amount)
  all_deepened-rows (d ∷ ids) nodes apart =
      P.nodes.update_many_rows _ _ _
      ∙ ap (map _) (P.nodes.update_many_rows nodes _ _)
      ∙ map-map_eq first _ (deepened_row (d ∷ ids)) (λ r. deepened_row-twice (d ∷ ids) r apart)
          (P.nodes.rows nodes)

  increas_depth-found :
      (nodes : P.nodes.Store) (current : NodeOf P)
      → P.nodes.find_first nodes (is_node ws id) ≡ some current
      → P.nodes.update nodes is_row (deepened amount)
        ≡ some (P.nodes.update_many nodes is_row (deepened amount))
  increas_depth-found nodes current found =
      let (m, t) = P.nodes.find_first_some nodes (is_node ws id) current found in
      P.nodes.update_one nodes is_row (deepened amount)
      ∙ rw (any_of_found is_row current (P.nodes.rows nodes) m (ground (arith, t)))

module _ (P : Platform) (ws id : String) (source_depth : Option ℤ) (increase : Bool) where
  abbrev pub with_depths : List String → World P → World P
  with_depths ids w = record w {
    nodes = all_deepened P ws id (depth_change source_depth increase) ids w.nodes;
  }

  pub propagate_depth-returned :
      (w : World P) (current : NodeOf P) (ids : List String)
      → P.nodes.find_first w.nodes (is_node ws id) ≡ some current
      → descendants (live_links ws (P.edges.rows w.edges)) id ≡ some ids
      → propagate_depth P ws id source_depth increase w ≡ (returned tt, with_depths ids w)
  unfolding propagate_depth increas_depth select_all_descendant_ids deepen_descendants
      increase_depth_many
  propagate_depth-returned w current ids found below = ground (
    arith,
    increas_depth-found P ws id (depth_change source_depth increase) w.nodes current found,
    below,
  )
