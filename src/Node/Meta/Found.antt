-- ===== src/Node/Meta/Found.antt =====
-- The rows of the nodes below a node, as `updateNodeMeta` of node/node.service.ts reads them.
use aideep_backend.Common.{
  String, ◌≡◌, ◌↔◌, true, List, [], ◌∷◌, any, Memᴰ, Memᴰ-nil, any_of_found, eq_refl, arith, IsKeyed,
}
use aideep_backend.Infra.Platform.{Platform}
use aideep_backend.Node.Repository.{NodeOf, is_node, is_one_of}

-- the key of a row
abbrev pub id_of : (P : Platform) → NodeOf P → String
id_of P r = r.node_id

module _ (P : Platform) (ws : String) where
  -- a row that the loop looks for is there
  abbrev pub IsThere : P.nodes.Store → NodeOf P → Type 0
  IsThere nodes d = any (is_node ws d.node_id) (P.nodes.rows nodes) ≡ true

  -- the rows that the loop runs over: none is read if no node is below
  abbrev pub rows_below : List String → P.nodes.Store → List (NodeOf P)
  rows_below [] nodes = []
  rows_below (d ∷ ids) nodes = P.nodes.find_many nodes (is_one_of ws (d ∷ ids))

  pub mem-rows_below :
      (ids : List String) (nodes : P.nodes.Store) (d : NodeOf P)
      → Memᴰ d (rows_below ids nodes) ↔ (Memᴰ d (P.nodes.rows nodes) × (is_one_of ws ids d ≡ true))
  mem-rows_below [] nodes d = (λ m. absurd (Memᴰ-nil d m), λ (m, t). absurd (cc t))
  mem-rows_below (x ∷ ids) nodes d = P.nodes.find_many_mem nodes (is_one_of ws (x ∷ ids)) d

  pub rows_below-IsKeyed :
      (ids : List String) (nodes : P.nodes.Store)
      → IsKeyed (id_of P) (P.nodes.rows nodes)
      → IsKeyed (id_of P) (rows_below ids nodes)
  rows_below-IsKeyed [] nodes keyed = tt
  rows_below-IsKeyed (x ∷ ids) nodes keyed =
      P.nodes.find_many_once nodes (is_one_of ws (x ∷ ids)) (id_of P) keyed

  pub rows_below-IsThere :
      (ids : List String) (nodes : P.nodes.Store) (d : NodeOf P)
      → Memᴰ d (rows_below ids nodes)
      → IsThere nodes d
  rows_below-IsThere ids nodes d n =
      let (m, t) = (mem-rows_below ids nodes d).0 n in
      any_of_found (is_node ws d.node_id) d (P.nodes.rows nodes) m
        (ground (arith, t, eq_refl d.node_id))
