-- ===== src/Ws/Gateway/Sound.antt =====
-- What holds of the gateway of ws/ws.gateway.ts between two events, and that the handlers keep it.
use aideep_backend.Common.{
  ◌+◌, String, ◌≡◌, refl, sym, ap, ◌∙◌, Bool, true, Option, none, some, arith, Option-cases, inl,
  inr, is_some, if◌then◌else◌,
}
use aideep_backend.Common.Assoc.{lookup, put}
use aideep_backend.Common.Assoc.Count.{IsUnique, put-IsUnique, one, one_of, count, count-put}
use aideep_backend.Infra.Action.{modify}
use aideep_backend.Infra.Keeps.{Keeps, Keeps-pure, keeps_rules}
use aideep_backend.Infra.Rows.{MemberRow}
use aideep_backend.Infra.Text.{truthy}
use aideep_backend.Infra.World.{World, Handler}
use aideep_backend.Ws.Gateway.Editing.{
  remember, find_membership, opened, open_document, enter, join_as, join_named, handle_yjs_join,
  handle_yjs_leave, track,
}
use aideep_backend.Ws.Gateway.State.{
  SocketData, Gateway, set_data, emit, on_manager, on_world, Emission,
}
use aideep_backend.Ws.Gateway.Tracking.{IsTracked, IsTracked-enter, IsTracked-handle_yjs_leave}
use aideep_backend.Ws.Sockets.{Ports}
use aideep_backend.Yjs.Manager.{Manager, ManagedDoc, get_or_create_doc, add_client}
use aideep_backend.Yjs.Manager.Holds.{holds, holds-get_or_create_doc}

-- `if (client.data?.userId)`
abbrev pub is_named : SocketData → Bool
is_named d = is_some (truthy d.user_id)

module _ (G : Ports) where
  -- every client of a document is tracked, and the gauge counts the sockets with a user
  pub record IsSound (g : Gateway G) : Type 0 where
    pub tracked : IsTracked G g
    pub unique : IsUnique g.sockets
    pub counted : g.increments ≡ g.decrements + count is_named g.sockets

  -- a change of a field of `client.data` other than the user
  pub IsSound-set_data :
      (socket : String) (f : SocketData → SocketData) (g : Gateway G)
      → ((d : SocketData) → (f d).user_id ≡ d.user_id)
      → IsSound g
      → IsSound (set_data G socket f g)
  IsSound-set_data socket f g same sound = elim (Option-cases (lookup socket g.sockets)) [
    | inl missing ↦ rw missing sound
    | inr (d, e) ↦ rw e (record {
      tracked = sound.tracked;
      unique = put-IsUnique socket (f d) g.sockets sound.unique;
      counted =
          let moved = count-put is_named socket (f d) g.sockets in
          let one_same : one is_named (f d) ≡ one is_named d =
            ap (λ u. if is_some (truthy u) then 1 else 0) (same d) in
          let found : one_of is_named (lookup socket g.sockets) ≡ one is_named d =
            ap (one_of is_named) e in
          omega (arith, moved, one_same, found, sound.counted);
    })
  ]

  -- a call of the manager that gives no document a new client
  pub IsSound-on_manager :
      (f : Manager G.documents → Manager G.documents) (g : Gateway G)
      → ((node_id socket : String)
          → holds G.documents (f g.manager) node_id socket ≡ true
          → holds G.documents g.manager node_id socket ≡ true)
      → IsSound g
      → IsSound (on_manager G f g)
  IsSound-on_manager f g fewer sound = record {
    tracked = λ node_id socket held. sound.tracked node_id socket (fewer node_id socket held);
    unique = sound.unique;
    counted = sound.counted;
  }

  pub IsSound-emit : (e : Emission G) (g : Gateway G) → IsSound g → IsSound (emit G e g)
  IsSound-emit e g sound = record {
    tracked = sound.tracked;
    unique = sound.unique;
    counted = sound.counted;
  }

  pub IsSound-world :
      (w : World G.platform) (rooms : G.rooms.Store) (g : Gateway G)
      → IsSound g
      → IsSound (record g { world = w; rooms = rooms })
  IsSound-world w rooms g sound = record {
    tracked = sound.tracked;
    unique = sound.unique;
    counted = sound.counted;
  }

  pub IsSound-enter :
      (socket node_id : String) (read_only : Bool) (doc : G.documents.Doc) (g : Gateway G)
      → IsSound g
      → IsSound (enter G socket node_id read_only doc g)
  unfolding enter
  IsSound-enter socket node_id read_only doc g sound =
      let in_room : Gateway G = record g { rooms = G.rooms.join g.rooms socket _ } in
      IsSound-emit _ _ (
        IsSound-set_data socket _
          (track G socket node_id (on_manager G (add_client G.documents node_id socket) in_room))
          (λ d. refl)
          (record {
            tracked = IsTracked-enter G socket node_id read_only doc g sound.tracked;
            unique = sound.unique;
            counted = sound.counted;
          }))

  pub IsSound-handle_yjs_leave :
      (socket node_id : String) (g : Gateway G)
      → IsSound g
      → IsSound (handle_yjs_leave G socket node_id g)
  unfolding handle_yjs_leave
  IsSound-handle_yjs_leave socket node_id g sound = record {
    tracked = IsTracked-handle_yjs_leave G socket node_id g sound.tracked;
    unique = sound.unique;
    counted = sound.counted;
  }

  Keeps-on_world : {A : Type 0} (h : Handler G.platform A) → Keeps IsSound (on_world G h)
  Keeps-on_world h = record { at = λ g sound. IsSound-world _ g.rooms g sound }

  pub IsSound-remember :
      (socket workspace_id : String) (membership : Option MemberRow) (g : Gateway G)
      → IsSound g
      → IsSound (remember G socket workspace_id membership g)
  IsSound-remember socket workspace_id membership g sound =
      IsSound-set_data socket
        (λ d. record d { membership_cache = put workspace_id membership d.membership_cache }) g
        (λ d. refl) sound

  Keeps-remember :
      (socket workspace_id : String) (membership : Option MemberRow)
      → Keeps IsSound (modify (remember G socket workspace_id membership))
  Keeps-remember socket workspace_id membership = record {
    at = IsSound-remember socket workspace_id membership;
  }

  Keeps-enter :
      (socket node_id : String) (read_only : Bool) (doc : G.documents.Doc)
      → Keeps IsSound (modify (enter G socket node_id read_only doc))
  Keeps-enter socket node_id read_only doc = record {
    at = IsSound-enter socket node_id read_only doc;
  }

  Keeps-find_membership :
      (cached : Option (Option MemberRow)) (socket user_id workspace_id : String)
      → Keeps IsSound (find_membership G cached socket user_id workspace_id)
  Keeps-find_membership (some membership) socket user_id workspace_id = Keeps-pure membership
  Keeps-find_membership none socket user_id workspace_id =
      search (keeps_rules, Keeps-on_world, Keeps-remember)

  Keeps-opened : (o : Option (ManagedDoc G.documents)) → Keeps IsSound (opened G o)
  Keeps-opened none = record { at = λ g sound. sound }
  Keeps-opened (some d) = record { at = λ g sound. sound }

  pub IsSound-opens :
      (node_id workspace_id : String) (g : Gateway G)
      → IsSound g
      → IsSound (on_manager G (get_or_create_doc G.documents node_id workspace_id) g)
  IsSound-opens node_id workspace_id g sound =
      IsSound-on_manager (get_or_create_doc G.documents node_id workspace_id) g
        (λ other socket held.
          sym (holds-get_or_create_doc G.documents node_id workspace_id other socket g.manager)
          ∙ held)
        sound

  Keeps-open_document :
      (node_id workspace_id : String) → Keeps IsSound (open_document G node_id workspace_id)
  Keeps-open_document node_id workspace_id = record {
    at = λ g sound.
        (Keeps-opened _).at (on_manager G (get_or_create_doc G.documents node_id workspace_id) g)
          (IsSound-opens node_id workspace_id g sound);
  }

  Keeps-join_as :
      (membership : Option MemberRow) (socket workspace_id node_id : String)
      → Keeps IsSound (join_as G membership socket workspace_id node_id)
  Keeps-join_as none socket workspace_id node_id = Keeps-pure _
  Keeps-join_as (some row) socket workspace_id node_id =
      search (keeps_rules, Keeps-open_document, Keeps-enter)

  Keeps-join_named :
      (user_id workspace_id : Option String) (socket node_id : String)
      → Keeps IsSound (join_named G user_id workspace_id socket node_id)
  Keeps-join_named none workspace_id socket node_id = Keeps-pure _
  Keeps-join_named (some user_id) none socket node_id = Keeps-pure _
  Keeps-join_named (some user_id) (some workspace_id) socket node_id =
      search (keeps_rules, Keeps-find_membership, Keeps-join_as)

  pub IsSound-handle_yjs_join :
      (socket node_id : String) (g : Gateway G)
      → IsSound g
      → IsSound (handle_yjs_join G socket node_id g).1
  unfolding handle_yjs_join
  IsSound-handle_yjs_join socket node_id g sound = (Keeps-join_named _ _ socket node_id).at g sound
