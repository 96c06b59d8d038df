-- ===== src/Ws/Gateway/Joining.antt =====
-- Who may open a document through `handleYjsJoin` of ws/ws.gateway.ts, and what that does.
use aideep_backend.Common.{
  String, ◌≡◌, refl, sym, ap, ◌∙◌, Bool, true, ◌&&◌, ◌||◌, Option, none, some, [], ◌∷◌, ◌++◌, ◌==◌,
  is_some, eq_refl, arith, Option-cases, ◌⊎◌, inl, inr, if◌then◌else◌,
}
use aideep_backend.Common.Assoc.{lookup, put, lookup-put_same}
use aideep_backend.Infra.Action.{returned}
use aideep_backend.Infra.Rows.{MemberRow}
use aideep_backend.Infra.Text.{truthy}
use aideep_backend.Workspace.Repository.{check_workspace, is_member}
use aideep_backend.Ws.Gateway.Editing.{
  refused, accepted, is_viewer, remember, enter, handle_yjs_join,
}
use aideep_backend.Ws.Gateway.State.{
  SocketData, Gateway, data_of, or_no_data, set_data, yjs_room, sync, to_client,
}
use aideep_backend.Ws.Gateway.Tracking.{tracks, tracks-track}
use aideep_backend.Ws.Sockets.{Ports}
use aideep_backend.Yjs.Manager.{Manager, ManagedDoc, managed, get_or_create_doc, add, add_client}
use aideep_backend.Yjs.Manager.Clients.{view, clients_of}
use aideep_backend.Yjs.Manager.Holds.{holds, holds-add_client, holds-get_or_create_doc}
use aideep_backend.Yjs.Manager.Refines.{Answers, view-get_or_create_doc}

module _ (G : Ports) where
  -- the manager and the world, the rooms and what was sent are as before
  pub record OnlyRemembers (g h : Gateway G) : Type 0 where
    pub manager : h.manager ≡ g.manager
    pub world : h.world ≡ g.world
    pub rooms : h.rooms ≡ g.rooms
    pub yjs_rooms : h.yjs_rooms ≡ g.yjs_rooms
    pub emitted : h.emitted ≡ g.emitted

  -- the socket has joined the node's document, and nobody else has
  pub record HasJoined (socket node_id workspace_id : String) (read_only : Bool) (g h : Gateway G)
      : Type 0 where
    -- the document that the manager had, or has loaded, when the socket asked
    pub document : ManagedDoc G.documents
    pub opens :
        managed G.documents (get_or_create_doc G.documents node_id workspace_id g.manager) node_id
        ≡ some document
    pub now_open :
        managed G.documents h.manager node_id
        ≡ some (record document {
          clients = add G.documents socket document.clients;
          last_activity = (get_or_create_doc G.documents node_id workspace_id g.manager).now;
        })
    pub clients :
        (other client : String)
        → holds G.documents h.manager other client
          ≡ (holds G.documents g.manager other client || (node_id == other && socket == client))
    pub tracked :
        (client other : String)
        → tracks h.yjs_rooms client other
          ≡ (tracks g.yjs_rooms client other || (socket == client && node_id == other))
    pub rooms :
        (client room : String)
        → G.rooms.has h.rooms client room ≡ (
            if (socket == client) && (yjs_room node_id == room)
            then true
            else G.rooms.has g.rooms client room)
    pub told :
        h.emitted
        ≡ g.emitted ++ to_client socket (sync node_id (G.wire.write_step1 document.doc)) ∷ []
    pub world : h.world ≡ g.world
    pub remembered : lookup node_id (data_of G socket h).yjs_read_only ≡ some read_only

  data_of-set_data :
      (socket : String) (f : SocketData → SocketData) (g : Gateway G)
      → is_some (lookup socket g.sockets) ≡ true
      → data_of G socket (set_data G socket f g) ≡ f (data_of G socket g)
  data_of-set_data socket f g known = elim (Option-cases (lookup socket g.sockets)) [
    | inl missing ↦ absurd (cc (known, ap is_some missing))
    | inr (d, e) ↦ rw e (ap (or_no_data G) (lookup-put_same socket (f d) g.sockets))
  ]

  set_data-known :
      (socket : String) (f : SocketData → SocketData) (g : Gateway G)
      → is_some (lookup socket g.sockets) ≡ true
      → is_some (lookup socket (set_data G socket f g).sockets) ≡ true
  set_data-known socket f g known = elim (Option-cases (lookup socket g.sockets)) [
    | inl missing ↦ absurd (cc (known, ap is_some missing))
    | inr (d, e) ↦ rw e (ap is_some (lookup-put_same socket (f d) g.sockets))
  ]

  add_client-managed :
      (socket node_id : String) (d : ManagedDoc G.documents) (m : Manager G.documents)
      → managed G.documents m node_id ≡ some d
      → managed G.documents (add_client G.documents node_id socket m) node_id
        ≡ some (record d { clients = add G.documents socket d.clients; last_activity = m.now })
  unfolding add_client
  add_client-managed socket node_id d m there = rw there (lookup-put_same node_id _ m.docs)

  enter-HasJoined :
      (socket node_id workspace_id : String) (read_only : Bool) (document : ManagedDoc G.documents)
      (g h : Gateway G)
      → is_some (lookup socket h.sockets) ≡ true
      → h.manager ≡ get_or_create_doc G.documents node_id workspace_id g.manager
      → managed G.documents h.manager node_id ≡ some document
      → is_some (view G.documents h.manager node_id) ≡ true
      → OnlyRemembers (record g { manager = h.manager }) h
      → HasJoined socket node_id workspace_id read_only g
          (enter G socket node_id read_only document.doc h)
  unfolding enter
  enter-HasJoined socket node_id workspace_id read_only document g h known loaded there is_open
        same =
      record {
        document = document;
        opens = ap (λ m. managed G.documents m node_id) (sym loaded) ∙ there;
        now_open =
            add_client-managed socket node_id document h.manager there
            ∙ ap
                (λ (m : Manager G.documents). some (record document {
                  clients = add G.documents socket document.clients;
                  last_activity = m.now;
                }))
                loaded;
        clients = λ other client. ground (
          arith,
          is_open,
          holds-add_client G.documents node_id other socket client h.manager,
          ap (λ m. holds G.documents m other client) loaded,
          holds-get_or_create_doc G.documents node_id workspace_id other client g.manager,
        );
        tracked = λ client other.
            tracks-track G socket node_id client other h
            ∙ ap (λ r. tracks r client other || (socket == client && node_id == other))
                same.yjs_rooms;
        rooms = λ client room.
            G.rooms.has_join h.rooms socket (yjs_room node_id) client room
            ∙ ap
                (λ r.
                  if (socket == client) && (yjs_room node_id == room)
                  then true
                  else G.rooms.has r client room)
                same.rooms;
        told =
            ap (λ es. es ++ to_client socket (sync node_id (G.wire.write_step1 document.doc)) ∷ [])
              same.emitted;
        world = same.world;
        remembered =
            ap (λ d. lookup node_id d.yjs_read_only)
              (data_of-set_data socket
                (λ d. record d { yjs_read_only = put node_id read_only d.yjs_read_only }) h known)
            ∙ lookup-put_same node_id read_only (data_of G socket h).yjs_read_only;
      }

  module _ (socket node_id : String) (g : Gateway G) where
    abbrev user : Option String
    user = truthy (data_of G socket g).user_id

    abbrev workspace : Option String
    workspace = truthy (data_of G socket g).workspace_id

    -- A socket without a user, or that has named no workspace, is refused every document, and nothing changes.
    pub handle_yjs_join-unnamed :
        (user ≡ none) ⊎ (workspace ≡ none)
        → handle_yjs_join G socket node_id g ≡ (returned (refused "join_workspace 먼저 호출하세요"), g)
    unfolding handle_yjs_join
    handle_yjs_join-unnamed h = ground (arith, h)

    module _ (user_id workspace_id : String) (named : user ≡ some user_id)
        (chosen : workspace ≡ some workspace_id)
        (uncached : lookup workspace_id (data_of G socket g).membership_cache ≡ none) where
      -- Where no membership is cached, a socket whose user is no member of the workspace that the socket has named is refused whatever node it asks for, and nothing changes but that the socket's data holds the answer.
      pub handle_yjs_join-no_member :
          G.platform.members.find_first g.world.members (is_member user_id workspace_id) ≡ none
          → ((handle_yjs_join G socket node_id g).0 ≡ returned (refused "워크스페이스 멤버가 아닙니다"))
            × ((handle_yjs_join G socket node_id g).1 ≡ remember G socket workspace_id none g)
      unfolding handle_yjs_join check_workspace
      handle_yjs_join-no_member missing = rw (named, chosen, uncached, missing) (refl, refl)

      known :
          (o : Option SocketData)
          → truthy (or_no_data G o).user_id ≡ some user_id
          → is_some o ≡ true
      known none e = cc e
      known (some d) e = refl

      -- Where no membership is cached and the stores answer, a socket whose user is a member of the workspace that the socket has named is given the document of any node it asks for, read-only exactly if the member is a viewer: the socket becomes a client of the document that the server has open or loads, is tracked and enters its room, nobody else does, and the socket alone is sent the state vector of that document.
      pub handle_yjs_join-member :
          (row : MemberRow)
          → G.platform.members.find_first g.world.members (is_member user_id workspace_id)
            ≡ some row
          → Answers G.documents g.manager
          → ((handle_yjs_join G socket node_id g).0 ≡ returned (accepted (is_viewer row)))
            × HasJoined socket node_id workspace_id
                (is_viewer row)
                g
                (handle_yjs_join G socket node_id g).1
      unfolding handle_yjs_join check_workspace
      handle_yjs_join-member row found answers =
          let remembered = remember G socket workspace_id (some row) g in
          let is_known =
            set_data-known socket
              (λ d. record d { membership_cache = put workspace_id (some row) d.membership_cache })
              g (known (lookup socket g.sockets) named) in
          let loaded : Gateway G = record remembered {
            manager = get_or_create_doc G.documents node_id workspace_id g.manager;
          } in
          let opened_now =
            view-get_or_create_doc G.documents node_id workspace_id g.manager answers in
          elim (Option-cases (
            managed G.documents (get_or_create_doc G.documents node_id workspace_id g.manager)
              node_id)) [
                | inl missing ↦
                    absurd
                      (ground (arith, missing, ap (λ v. v node_id) opened_now, eq_refl node_id))
                | inr (d, e) ↦
                    rw (named, chosen, uncached, found, e)
                      (
                        refl,
                        enter-HasJoined socket node_id workspace_id (is_viewer row) d g loaded
                            is_known refl e (ap (λ o. is_some (clients_of G.documents o)) e)
                            (record {
                              manager = refl;
                              world = refl;
                              rooms = refl;
                              yjs_rooms = refl;
                              emitted = refl;
                            }),
                      )
              ]
