-- ===== src/Node/Meta/Below.antt =====
-- The loop of `updateNodeMeta` of node/node.service.ts that recolours the nodes below a node.
use mathlib.Core.List.{append-nil, append_assoc, map-id}
use aideep_backend.Common.{
  String, ◌≡◌, ◌≢◌, refl, sym, ap, ◌∙◌, subst, true, false, Option, none, some, List, [], ◌∷◌, ◌++◌,
  map, arith, any, Memᴰ, Memᴰ-cons, Memᴰ-nil, ⊎_elim, inl, inr, Bool-cases, eq_iff, eq_refl,
  IsKeyed, IsKeyed-same, any-map, ◌==◌, if◌then◌else◌, map-map_eq, map-on,
}
use aideep_backend.Infra.Action.{returned}
use aideep_backend.Infra.Platform.{Platform}
use aideep_backend.Infra.Rows.{Json, Content}
use aideep_backend.Infra.World.{World, broadcast}
use aideep_backend.Node.Content.{recolour}
use aideep_backend.Node.Meta.Found.{id_of, IsThere, rows_below, mem-rows_below, rows_below-IsKeyed}
use aideep_backend.Node.Repository.{NodeOf, is_node, is_one_of, updated, update_node}
use aideep_backend.Node.Service.{content_update, recolour_all}
use aideep_backend.Ws.Event.{WsEvent, node_update}

module _ (P : Platform) (ws user_id : String) (color text_color : Option Json) where
  abbrev pub new_colours : NodeOf P → Content
  new_colours d = recolour color text_color d.content

  -- what a pass of the loop for `d` makes of a row
  abbrev pub pass : NodeOf P → NodeOf P → NodeOf P
  pass d r = if is_node ws d.node_id r then updated (content_update P none (new_colours d)) r else r

  -- what all passes make of it
  abbrev pub passes : List (NodeOf P) → NodeOf P → NodeOf P
  passes [] r = r
  passes (d ∷ rest) r = passes rest (pass d r)

  abbrev pub recoloured : NodeOf P → NodeOf P
  recoloured r = updated (content_update P none (new_colours r)) r

  abbrev pub store_below : List (NodeOf P) → P.nodes.Store → P.nodes.Store
  store_below [] nodes = nodes
  store_below (d ∷ rest) nodes = store_below rest (
      P.nodes.update_many nodes (is_node ws d.node_id)
        (updated (content_update P none (new_colours d))))

  abbrev pub event_of : NodeOf P → WsEvent P.Num
  event_of d =
      node_update ws d.node_id user_id (record { title = none; content = some (new_colours d) })

  abbrev pub events_of : List (NodeOf P) → List (WsEvent P.Num)
  events_of [] = []
  events_of (d ∷ rest) = event_of d ∷ events_of rest

  IsThere-update_many :
      (nodes : P.nodes.Store) (d other : NodeOf P)
      → IsThere P ws nodes other
      → IsThere P ws
          (P.nodes.update_many nodes
            (is_node ws d.node_id)
            (updated (content_update P none (new_colours d))))
          other
  IsThere-update_many nodes d other there =
      ap (any (is_node ws other.node_id)) (P.nodes.update_many_rows nodes _ _)
      ∙ any-map (is_node ws other.node_id) (pass d) (P.nodes.rows nodes) (λ r. ground arith)
      ∙ there

  pub recolour_all-returned :
      (ds : List (NodeOf P)) (w : World P)
      → ((d : NodeOf P) → Memᴰ d ds → IsThere P ws w.nodes d)
      → recolour_all P ws user_id color text_color ds w
        ≡ (returned tt, record w { nodes = store_below ds w.nodes; sent = w.sent ++ events_of ds })
  unfolding recolour_all update_node broadcast
  recolour_all-returned [] w there =
      ap (λ s. (returned tt, record w { sent = s })) (sym (append-nil w.sent))
  recolour_all-returned (d ∷ rest) w there =
      let stored : P.nodes.update w.nodes (is_node ws d.node_id)
            (updated (content_update P none (new_colours d)))
          ≡ some (
              P.nodes.update_many w.nodes (is_node ws d.node_id)
                (updated (content_update P none (new_colours d)))) =
        P.nodes.update_one w.nodes (is_node ws d.node_id)
          (updated (content_update P none (new_colours d)))
        ∙ rw (there d (Memᴰ.head refl)) refl in
      let next : World P = record w {
        nodes =
            P.nodes.update_many w.nodes (is_node ws d.node_id)
              (updated (content_update P none (new_colours d)));
        sent = w.sent ++ event_of d ∷ [];
      } in
      rw stored (
        recolour_all-returned rest next
          (λ other m. IsThere-update_many w.nodes d other (there other (Memᴰ.tail m)))
        ∙ ap (λ s. (returned tt, record next { nodes = store_below rest next.nodes; sent = s }))
            (append_assoc w.sent (event_of d ∷ []) (events_of rest)))

  pub store_below-rows :
      (ds : List (NodeOf P)) (nodes : P.nodes.Store)
      → P.nodes.rows (store_below ds nodes) ≡ map (passes ds) (P.nodes.rows nodes)
  store_below-rows [] nodes = sym (map-id (P.nodes.rows nodes))
  store_below-rows (d ∷ rest) nodes =
      store_below-rows rest _
      ∙ ap (map (passes rest)) (P.nodes.update_many_rows nodes _ _)
      ∙ map-map_eq (pass d) (passes rest) (passes (d ∷ rest)) (λ r. refl) (P.nodes.rows nodes)

  -- no pass is for the row
  passes-none :
      (ds : List (NodeOf P)) (r : NodeOf P)
      → ((d : NodeOf P) → Memᴰ d ds → is_node ws d.node_id r ≡ false)
      → passes ds r ≡ r
  passes-none [] r other = refl
  passes-none (d ∷ rest) r other =
      rw (other d (Memᴰ.head refl)) (passes-none rest r (λ e m. other e (Memᴰ.tail m)))

  other_node : (id : String) (r : NodeOf P) → id ≢ r.node_id → is_node ws id r ≡ false
  other_node id r apart = elim (Bool-cases (r.node_id == id)) [
    | inl t ↦ absurd (apart (sym ((eq_iff r.node_id id).0 t)))
    | inr f ↦ ground (arith, f)
  ]

  -- one pass is for the row
  passes-one :
      (ds : List (NodeOf P)) (r : NodeOf P)
      → IsKeyed (id_of P) ds
      → Memᴰ r ds
      → is_node ws r.node_id r ≡ true
      → passes ds r ≡ recoloured r
  passes-one [] r keyed m own = absurd (Memᴰ-nil r m)
  passes-one (d ∷ rest) r (new, keyed) m own =
      let at_d : is_node ws d.node_id d ≡ true → passes (d ∷ rest) d ≡ recoloured d = λ own_d.
        rw own_d (
          passes-none rest (recoloured d)
            (λ other n. other_node other.node_id (recoloured d) (λ i. new other n (sym i)))) in
      ⊎_elim
        (λ e.
          subst (λ x. passes (d ∷ rest) x ≡ recoloured x) (sym e)
            (at_d (subst (λ x. is_node ws x.node_id x ≡ true) e own)))
        (λ n. rw (other_node d.node_id r (new r n)) (passes-one rest r keyed n own))
        ((Memᴰ-cons r d rest).0 m)

  -- the loop recolours exactly the rows that were found
  passes-rows_below :
      (ids : List String) (nodes : P.nodes.Store) (r : NodeOf P)
      → IsKeyed (id_of P) (P.nodes.rows nodes)
      → Memᴰ r (P.nodes.rows nodes)
      → passes (rows_below P ws ids nodes) r ≡ (if is_one_of ws ids r then recoloured r else r)
  passes-rows_below ids nodes r keyed m = elim (Bool-cases (is_one_of ws ids r)) [
    | inl t ↦ rw t (
        passes-one (rows_below P ws ids nodes) r (rows_below-IsKeyed P ws ids nodes keyed)
          ((mem-rows_below P ws ids nodes r).1 (m, t)) (ground (arith, t, eq_refl r.node_id)))
    | inr f ↦ rw f (
        passes-none (rows_below P ws ids nodes) r (λ d n. other_node d.node_id r (λ e.
          let (i, u) = (mem-rows_below P ws ids nodes d).0 n in
          let same = IsKeyed-same (id_of P) (P.nodes.rows nodes) d r keyed i m e in
          absurd (cc (subst (λ x. is_one_of ws ids x ≡ true) same u, f)))))
  ]

  pub store_below-found :
      (ids : List String) (nodes : P.nodes.Store)
      → IsKeyed (id_of P) (P.nodes.rows nodes)
      → P.nodes.rows (store_below (rows_below P ws ids nodes) nodes)
        ≡ map (λ r. if is_one_of ws ids r then recoloured r else r) (P.nodes.rows nodes)
  store_below-found ids nodes keyed =
      store_below-rows (rows_below P ws ids nodes) nodes
      ∙ map-on (passes (rows_below P ws ids nodes)) _ (P.nodes.rows nodes)
          (λ r m. passes-rows_below ids nodes r keyed m)
