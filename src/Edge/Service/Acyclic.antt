-- ===== src/Edge/Service/Acyclic.antt =====
-- `connectNodes` of edge/edge.service.ts keeps the graph of every workspace free of cycles.
use mathlib.Core.List.Memᴰ
use aideep_backend.Common.{
  String, ◌≡◌, refl, sym, subst, Bool, true, Option, none, some, List, [], ◌∷◌, ◌++◌, Memᴰ, arith,
  ◌==◌, eq-cases, inl, inr, ◌∙◌, not, keep,
}
use aideep_backend.Infra.Action.{Outcome, returned, thrown, resume}
use aideep_backend.Infra.Keeps.{Keeps, keeps_rules, Leads, Leads-bind, Leads-step}
use aideep_backend.Infra.Platform.{Platform}
use aideep_backend.Infra.Rows.{EdgeRow}
use aideep_backend.Infra.World.{World}
use aideep_backend.Edge.Walk.{link, Walk, IsAcyclic}
use aideep_backend.Edge.Acyclic.{IsSubgraph, Walk-mono, IsAcyclic-mono, IsAcyclic-extended}
use aideep_backend.Edge.Cycle.Complete.{has_cycle_complete}
use aideep_backend.Edge.Graph.{
  workspace_links, workspace_links-append, row_of_workspace_links, IsSubgraph-of_rows, mem-keep,
  AllAcyclic,
}
use aideep_backend.Infra.Frame.{IsData, Keeps-redis_del, Keeps-broadcast, Keeps-run_in_transaction}
use aideep_backend.Node.Frame.{Keeps-propagate_depth}
use aideep_backend.Edge.Repository.{
  Edge, HasIds, edge_input, row_link, touches, stored_edges, create_edge, delete_edge_by_id,
  delete_edges_by_node_id,
}
use aideep_backend.Edge.Service.{check_connection, make_connection, connect_nodes}
use aideep_backend.Edge.Service.Checks.{
  asked_links, check_connection-reads, check_connection-acyclic,
}
use aideep_backend.Node.Repository.{NodeOf}
use aideep_backend.Node.Service.{propagate_depth}

module _ (P : Platform) where
  -- a deletion keeps only edges that were there
  pub AllAcyclic-delete_many :
      (edges : P.edges.Store) (p : EdgeRow → Bool)
      → AllAcyclic P edges
      → AllAcyclic P (P.edges.delete_many edges p)
  AllAcyclic-delete_many edges p h ws =
      subst (λ rows. IsAcyclic (workspace_links ws rows)) (sym (P.edges.delete_many_rows edges p))
        (IsAcyclic-mono
          (IsSubgraph-of_rows ws (keep (λ r. not (p r)) (P.edges.rows edges)) (P.edges.rows edges)
            (mem-keep (λ r. not (p r)) (P.edges.rows edges)))
          (h ws))

  module _ (dto : Edge) where
    -- the query of `connectNodes` returns the graph of the workspace
    IsSubgraph-asked_links :
        (w : World P)
        → IsSubgraph (workspace_links dto.workspace_id (P.edges.rows w.edges)) (asked_links P dto w)
    IsSubgraph-asked_links w a b m =
        let (r, i, t, e) =
          row_of_workspace_links dto.workspace_id (P.edges.rows w.edges) (link a b) m in
        subst (λ l. Memᴰ l (asked_links P dto w)) e
          (Memᴰ.map row_link
            ((P.edges.find_many_mem w.edges (λ r. r.workspace_id == dto.workspace_id) r).1 (i, t)))

    module _ (ids : HasIds P dto) (edges : P.edges.Store) where
      abbrev made : EdgeRow
      made = (P.edges.create edges (edge_input dto)).0

      abbrev rows : List EdgeRow
      rows = P.edges.rows edges

      made-link : row_link made ≡ link dto.source_id dto.target_id
      made-link =
          let held = P.edges.create_holds edges (edge_input dto) in
          cc
            (held.source_id dto.source_id ids.source_id, held.target_id dto.target_id ids.target_id)

      created_links :
          (ws : String)
          → AllAcyclic P edges
          → ¬ Walk (workspace_links dto.workspace_id rows) dto.target_id dto.source_id
          → IsAcyclic (workspace_links ws (rows ++ made ∷ []))
      created_links ws h apart =
          rw (workspace_links-append ws rows made) (elim (eq-cases made.workspace_id ws) [
            | inl (t, e) ↦
                rw (t, made-link)
                  (IsAcyclic-extended (workspace_links ws rows) dto.source_id dto.target_id (h ws) (
                    subst (λ x. ¬ Walk (workspace_links x rows) dto.target_id dto.source_id)
                      (sym (
                          (P.edges.create_holds edges (edge_input dto)).workspace_id
                            dto.workspace_id ids.workspace_id)
                        ∙ e)
                      apart))
            | inr (f, _) ↦ rw f (h ws)
          ])

      -- a new edge whose target does not lead back to its source
      AllAcyclic-create :
          AllAcyclic P edges
          → ¬ Walk (workspace_links dto.workspace_id rows) dto.target_id dto.source_id
          → AllAcyclic P (P.edges.create edges (edge_input dto)).1
      AllAcyclic-create h apart ws =
          subst (λ rows. IsAcyclic (workspace_links ws rows))
            (sym (P.edges.create_rows edges (edge_input dto))) (created_links ws h apart)

  -- a state in which every workspace's graph is free of cycles
  abbrev pub EdgesAcyclic : World P → Type 0
  EdgesAcyclic w = AllAcyclic P w.edges

  pub IsData-EdgesAcyclic : IsData P EdgesAcyclic
  IsData-EdgesAcyclic = record { same = λ v w n e m s u q. subst (AllAcyclic P) e q }

  Keeps-stored_edges :
      (edges : Option P.edges.Store) (w : World P)
      → ((e : P.edges.Store) → edges ≡ some e → AllAcyclic P e)
      → EdgesAcyclic w
      → EdgesAcyclic (stored_edges P edges w).1
  Keeps-stored_edges none w h q = q
  Keeps-stored_edges (some e) w h q = h e refl

  pub Keeps-delete_edge_by_id :
      (edge_id : String) → Keeps EdgesAcyclic (delete_edge_by_id P edge_id)
  unfolding delete_edge_by_id
  Keeps-delete_edge_by_id edge_id = record {
    at = λ w q.
        Keeps-stored_edges _ w
          (λ e h.
            subst (AllAcyclic P) (deleted w e h)
              (AllAcyclic-delete_many w.edges (λ r. r.edge_id == edge_id) q))
          q;
  }
    where
      deleted :
          (w : World P) (e : P.edges.Store)
          → P.edges.delete w.edges (λ r. r.edge_id == edge_id) ≡ some e
          → P.edges.delete_many w.edges (λ r. r.edge_id == edge_id) ≡ e
      deleted w e h = ground (arith, P.edges.delete_one w.edges (λ r. r.edge_id == edge_id))

  pub Keeps-delete_edges_by_node_id :
      (node_id : String) → Keeps EdgesAcyclic (delete_edges_by_node_id P node_id)
  unfolding delete_edges_by_node_id
  Keeps-delete_edges_by_node_id node_id = record {
    at = λ w q. AllAcyclic-delete_many w.edges (touches node_id) q;
  }

  module _ (dto : Edge) where
    -- what `hasCycle` has found out
    abbrev Apart : World P → Type 0
    Apart w =
        AllAcyclic P w.edges
        × (¬ Walk (workspace_links dto.workspace_id (P.edges.rows w.edges)) dto.target_id
            dto.source_id)

    IsData-Apart : IsData P Apart
    IsData-Apart = record {
      same = λ v w n e m s u q.
          subst
            (λ edges.
              AllAcyclic P edges
              × (¬ Walk (workspace_links dto.workspace_id (P.edges.rows edges)) dto.target_id
                  dto.source_id))
            e q;
    }

    Leads-create_edge : HasIds P dto → Leads Apart EdgesAcyclic (create_edge P dto)
    unfolding create_edge
    Leads-create_edge ids = record { at = λ w q. AllAcyclic-create dto ids w.edges q.0 q.1 }

    Leads-make_connection :
        HasIds P dto → (source : NodeOf P) → Leads Apart EdgesAcyclic (make_connection P dto source)
    unfolding make_connection
    Leads-make_connection ids source =
        Leads-bind (propagate_depth P dto.workspace_id dto.target_id source.depth true) _
          (Keeps-propagate_depth P (λ w n a. a) dto.workspace_id dto.target_id source.depth true)
          (λ w apart. apart.0)
          (λ _. Leads-step (create_edge P dto) _ (Leads-create_edge ids) (λ r. search (
            keeps_rules,
            Keeps-redis_del P {Q = EdgesAcyclic} (λ w s o q. q),
            Keeps-broadcast P {Q = EdgesAcyclic} (λ w l q. q),
          )))

    checked-Apart :
        (w : World P) {source : NodeOf P} {w' : World P}
        → check_connection P dto w ≡ (returned source, w')
        → EdgesAcyclic w
        → Apart w
    checked-Apart w {source} e q = (
      q,
      λ walk.
          has_cycle_complete (asked_links P dto w) dto.source_id dto.target_id
            (check_connection-acyclic P dto w source e)
            (Walk-mono (IsSubgraph-asked_links dto w) walk),
    )

    Keeps-connect :
        HasIds P dto
        → (r : Outcome (NodeOf P) × World P) (w : World P) → check_connection P dto w ≡ r
        → r.1 ≡ w
        → EdgesAcyclic w
        → EdgesAcyclic (resume r.0 (make_connection P dto) r.1).1
    Keeps-connect ids (returned source, w') w e read q =
        (Leads-make_connection ids source).at w' (subst Apart (sym read) (checked-Apart w e q))
    Keeps-connect ids (thrown x, w') w e read q = subst EdgesAcyclic (sym read) q

    -- Connecting two nodes by ids in the form in which the database returns them, whatever comes of the request, a commit that fails included, leaves every workspace's graph free of cycles if it was.
    pub connect_nodes-EdgesAcyclic :
        HasIds P dto → (w : World P) → EdgesAcyclic w → EdgesAcyclic (connect_nodes P dto w).1
    unfolding connect_nodes
    connect_nodes-EdgesAcyclic ids w q =
        (Keeps-run_in_transaction P IsData-EdgesAcyclic _ (record {
          at = λ v p.
              Keeps-connect ids (check_connection P dto v) v refl (check_connection-reads P dto v)
                p;
        })).at
          w q
