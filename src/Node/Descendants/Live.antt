-- ===== src/Node/Descendants/Live.antt =====
-- What `selectAllDescendantIds` of node/node.repository.ts finds below a node of a workspace whose graph has
-- no cycle.
use aideep_backend.Common.{
  String, ◌≡◌, ◌↔◌, false, some, List, [], ◌∷◌, arith, contains, contains_iff, Memᴰ, Memᴰ-cons,
  Bool-cases, inl, inr,
}
use aideep_backend.Infra.Platform.{Platform}
use aideep_backend.Infra.Rows.{EdgeRow}
use aideep_backend.Edge.Acyclic.{IsSubgraph, IsAcyclic-mono}
use aideep_backend.Edge.Graph.{AllAcyclic, workspace_links}
use aideep_backend.Edge.Repository.{row_link}
use aideep_backend.Edge.Walk.{link, HasEdge, Walk, IsAcyclic}
use aideep_backend.Node.Descendants.{live_links, descendants}
use aideep_backend.Node.Descendants.Correct.{IsDistinct, descendants_correct}

-- the edges that are not marked as deleted are among all edges of the workspace
IsSubgraph-live_links :
    (ws : String) (rows : List EdgeRow) → IsSubgraph (live_links ws rows) (workspace_links ws rows)
unfolding live_links
IsSubgraph-live_links ws [] a b m = m
IsSubgraph-live_links ws (r ∷ rows) a b m = ground (
  arith,
  IsSubgraph-live_links ws rows a b,
  Memᴰ-cons (link a b) (row_link r) (live_links ws rows),
  Memᴰ-cons (link a b) (row_link r) (workspace_links ws rows),
)

apart : (id : String) (ids : List String) → ¬ Memᴰ id ids → contains ids id ≡ false
apart id ids none_of_them = elim (Bool-cases (contains ids id)) [
  | inl t ↦ absurd (none_of_them ((contains_iff ids id).0 t))
  | inr f ↦ f
]

module _ (P : Platform) (ws id : String) (edges : P.edges.Store) where
  -- the ids are, each once, those of the nodes to which live edges lead from the node
  pub record IsBelow (ids : List String) : Type 0 where
    pub once : IsDistinct ids
    pub lists :
        (v : String)
        → Memᴰ v ids ↔ (
            (u : String) × HasEdge (live_links ws (P.edges.rows edges)) id u
            × Walk (live_links ws (P.edges.rows edges)) u v)

  -- what the query returns
  pub record FindsBelow (ids : List String) : Type 0 where
    pub found : descendants (live_links ws (P.edges.rows edges)) id ≡ some ids
    pub below : IsBelow ids
    pub apart : contains ids id ≡ false

  pub finds_below : AllAcyclic P edges → (ids : List String) × FindsBelow ids
  finds_below acyclic =
      let live : IsAcyclic (live_links ws (P.edges.rows edges)) =
        IsAcyclic-mono (IsSubgraph-live_links ws (P.edges.rows edges)) (acyclic ws) in
      let (ids, found, once, lists) =
        descendants_correct (live_links ws (P.edges.rows edges)) id live in
      (
        ids,
        record {
          found = found;
          below = record { once = once; lists = lists };
          apart =
              apart id ids (λ m. let (u, e, walk) = (lists id).0 m in live.no_return id u e walk);
        },
      )
