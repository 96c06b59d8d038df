-- ===== src/Node/Meta/Colours.antt =====
-- The rows of the nodes behind `updateNodeMeta` of node/node.service.ts with colours that are passed on.

use aideep_backend.Common.{
  String, ◌≡◌, ◌↔◌, sym, ap, ◌∙◌, subst, true, false, List, map, arith, contains, Memᴰ, inl, inr,
  eq-cases, IsKeyed, IsKeyed-map, map-mem, mem-map, map-map_eq, if◌then◌else◌,
}
use aideep_backend.Infra.Platform.{Platform}
use aideep_backend.Infra.World.{World}
use aideep_backend.Node.Meta.{after_meta, meta_update}
use aideep_backend.Node.Meta.Below.{recoloured, store_below, store_below-found}
use aideep_backend.Node.Meta.Found.{id_of, rows_below, mem-rows_below}
use aideep_backend.Node.Repository.{NodeOf, is_node, is_one_of, updated}
use aideep_backend.Node.Service.{UpdateNodeMetaBody}

module _ (P : Platform) (user_id id ws : String) (body : UpdateNodeMetaBody) (w : World P) where
  abbrev own : NodeOf P → NodeOf P → NodeOf P
  own existing r =
      if is_node ws id r then updated (meta_update P user_id id ws body w existing) r else r

  -- what the request makes of a row
  abbrev pub coloured_row : NodeOf P → List String → NodeOf P → NodeOf P
  coloured_row existing ids r =
      if is_node ws id r
      then updated (meta_update P user_id id ws body w existing) r
      else if is_one_of ws ids r
      then recoloured P ws user_id body.color body.text_color r
      else r

  coloured_row-twice :
      (existing : NodeOf P) (ids : List String) (r : NodeOf P)
      → contains ids id ≡ false
      → (if is_one_of ws ids (own existing r)
          then recoloured P ws user_id body.color body.text_color (own existing r)
          else own existing r)
        ≡ coloured_row existing ids r
  coloured_row-twice existing ids r apart = elim (eq-cases r.node_id id) [
    | inl (t, e) ↦
        let elsewhere : contains ids r.node_id ≡ false = ap (contains ids) e ∙ apart in ground arith
    | inr (f, _) ↦ ground arith
  ]

  is_one_of-own :
      (existing : NodeOf P) (ids : List String) (a : NodeOf P)
      → is_one_of ws ids (own existing a) ≡ is_one_of ws ids a
  is_one_of-own existing ids a = ground arith

  own-below :
      (existing : NodeOf P) (ids : List String) (a : NodeOf P)
      → contains ids id ≡ false
      → is_one_of ws ids a ≡ true
      → own existing a ≡ a
  own-below existing ids a apart below_it = elim (eq-cases a.node_id id) [
    | inl (t, e) ↦
        let elsewhere : contains ids a.node_id ≡ false = ap (contains ids) e ∙ apart in
        absurd (ground (arith, elsewhere, below_it))
    | inr (f, _) ↦ ground (arith, f)
  ]

  -- the rows below are not the node's own, which alone was changed before they are read
  mem-own :
      (existing : NodeOf P) (ids : List String) (d : NodeOf P)
      → contains ids id ≡ false
      → (Memᴰ d (map (own existing) (P.nodes.rows w.nodes)) × (is_one_of ws ids d ≡ true))
        ↔ (Memᴰ d (P.nodes.rows w.nodes) × (is_one_of ws ids d ≡ true))
  mem-own existing ids d apart = (
    λ (m, t).
        let (a, n, e) = map-mem (own existing) (P.nodes.rows w.nodes) d m in
        let one : is_one_of ws ids a ≡ true =
          sym (is_one_of-own existing ids a) ∙ subst (λ x. is_one_of ws ids x ≡ true) e t in
        (
          subst (λ x. Memᴰ x (P.nodes.rows w.nodes)) (sym (e ∙ own-below existing ids a apart one))
              n,
          t,
        ),
    λ (m, t). (
      subst (λ x. Memᴰ x (map (own existing) (P.nodes.rows w.nodes)))
          (own-below existing ids d apart t) (mem-map (own existing) (P.nodes.rows w.nodes) d m),
      t,
    ),
  )

  own_rows :
      (existing : NodeOf P)
      → P.nodes.rows (after_meta P user_id id ws body w existing).nodes
        ≡ map (own existing) (P.nodes.rows w.nodes)
  own_rows existing =
      P.nodes.update_many_rows w.nodes (is_node ws id)
        (updated (meta_update P user_id id ws body w existing))

  module _ (existing : NodeOf P) (ids : List String) (not_below : contains ids id ≡ false) where
    abbrev nodes_after : P.nodes.Store
    nodes_after = (after_meta P user_id id ws body w existing).nodes

    -- the loop reads the rows below as they were
    pub mem-below :
        (d : NodeOf P)
        → Memᴰ d (rows_below P ws ids nodes_after)
          ↔ (Memᴰ d (P.nodes.rows w.nodes) × (is_one_of ws ids d ≡ true))
    mem-below d =
        let read = mem-rows_below P ws ids nodes_after d in
        let was = mem-own existing ids d not_below in
        (
          λ m. was.0 (
              subst (λ rows. Memᴰ d rows × (is_one_of ws ids d ≡ true)) (own_rows existing)
                (read.0 m)),
          λ m. read.1 (
              subst (λ rows. Memᴰ d rows × (is_one_of ws ids d ≡ true)) (sym (own_rows existing))
                (was.1 m)),
        )

    module _ (keyed : IsKeyed (id_of P) (P.nodes.rows w.nodes)) where
      pub own-IsKeyed : IsKeyed (id_of P) (P.nodes.rows nodes_after)
      own-IsKeyed =
          subst (IsKeyed (id_of P)) (sym (own_rows existing))
            (IsKeyed-map (id_of P) (own existing) (P.nodes.rows w.nodes) (λ r. ground arith) keyed)

      -- the rows behind the loop
      pub coloured_rows :
          P.nodes.rows (
            store_below P ws user_id body.color body.text_color
              (rows_below P ws ids nodes_after)
              nodes_after)
          ≡ map (coloured_row existing ids) (P.nodes.rows w.nodes)
      coloured_rows =
          store_below-found P ws user_id body.color body.text_color ids nodes_after own-IsKeyed
          ∙ ap (map _) (own_rows existing)
          ∙ map-map_eq (own existing) _ (coloured_row existing ids)
              (λ r. coloured_row-twice existing ids r not_below) (P.nodes.rows w.nodes)
