-- ===== src/Lib.antt =====
-- The backend of a board editor: workspaces hold nodes on a plane and directed edges between them;
-- members move, change, connect and delete them, and every change is sent to the other members.
--
-- A request reaches a controller, which hands it to a service (src/node/node.service.ts,
-- src/edge/edge.service.ts). A service checks the user's role, reads and writes tables through a
-- repository (src/node/node.repository.ts and so on), deletes the cached view of the workspace in
-- Redis and broadcasts an event (src/ws/ws.event.ts). `Infra` has what they share: `Infra.World` is the
-- state of a request (the tables, Redis, the events sent, whether a transaction is open), a handler
-- of type `Handler P A` is an `async` method that reads and writes it and returns or throws
-- (`Infra.Action`), `run_in_transaction` is `runInTransaction` of src/prisma/prisma.service.ts, and
-- `Infra.Transactions` is the decorator that leads to it.
--
-- The database, Redis, numbers, dates, tokens and JSON are not part of the program: `Infra.Platform` is a
-- record of their operations and of the documented laws that the proofs use (`Infra.Table`,
-- `Infra.Redis`), and `Samples.Tables` is a concrete one, on which `Tests` runs the services.
--
-- - Edge.Cycle: `hasCycle`; Edge.Walk, Edge.Acyclic and Edge.Steps say in terms of walks what a graph
--   without cycles is.
-- - Edge.Repository, Edge.Service: src/edge/edge.repository.ts, src/edge/edge.model.ts and
--   src/edge/edge.service.ts, an operation by the name of its method.
-- - Node.Repository, Node.Descendants, Node.Content, Node.Service, Node.Model: src/node, the recursive
--   query in Node.Descendants and the object of a node's data in Node.Content; Node.Creation, Node.Meta, Node.Move,
--   Node.Depth and Node.Deletion have what the requests and the edges do to the rows.
-- - Workspace.Repository, Workspace.Service: src/workspace.
-- - Auth.Service, User.Repository: src/auth and src/user; Auth.Tokens is what they call of the libraries
--   for tokens, hashes and JSON.
-- - Ws.Gateway: src/ws/ws.gateway.ts. Ws.Gateway.State is its state, Ws.Gateway.Connections and
--   Ws.Gateway.Editing are its handlers, Ws.Gateway.Reach has the events in any order; Ws.Sockets is what it
--   calls of Socket.IO and y-protocols. Yjs.Presence: src/yjs/yjs-ws-awareness.service.ts.
-- - Edge.Controller, Node.Controller, Workspace.Controller, User.Controller, Auth.Controller, Upload.Controller:
--   the controllers; Auth.Guard: src/auth/strategy behind src/auth/guards; Http.Routes puts guard, controller and
--   service together, one constructor for each guarded request. Http.Frame: what the services leave alone,
--   Http.Served: all the HTTP calls, one after another in any order.
-- - Yjs.Manager, Yjs.Stores: src/yjs/yjs-doc-manager.ts and src/yjs/yjs-crdt.service.ts; Yjs.Documents is what
--   they call of Yjs. Yjs.Manager.Reach has the steps, which come in any order: the operations, and any
--   timer that was set and not cleared, at any time, and changes that the gateway makes to a document in place. Yjs.Manager.Clients and
--   Yjs.Manager.Refines see it as a function from nodes to lists of sockets; Yjs.Manager.Stopping is its end and its
--   start. Yjs.Manager.Timeouts: `setTimeout` and `clearTimeout`.
-- - Errors.Filter, Errors.Database: src/common/error and src/common/response.
-- - Upload: src/upload/s3.service.ts.
-- - Infra.Redis.Keys: src/redis/redis.keys.ts. Ws.Event: src/ws/ws.event.ts.
--
-- Loops: `has_cycle` has fuel for one round for each edge, one for the target and one that sees the
-- empty queue, which always suffices. `union_all` has a round more than there are edges, which suffices
-- on a graph without cycles; elsewhere the query may not end, and the handler then throws `diverged`.
-- An external call is one step; requests do not interleave, except that any Redis call and any commit of a
-- transaction may be rejected.
--
-- Ids: the columns are of the type uuid, and the queries are modelled for ids in the form in which the database
-- returns them (`IsId`), on which the comparison of uuids is that of texts. What an insertion stores of other
-- texts is `uuid` of `Infra.Platform`; a query for another text, which finds the row whatever the case of the
-- letters, or throws where the text is no uuid, is not modelled.
--
-- The gateway's state holds that of the services (`World`) and that of the documents (`Manager`, with its
-- stores) side by side: they share no table column and, by Infra.Redis.Keys, no key of Redis.
--
-- `Math.random()` is a multiple of 2^-53, and the rounding of its product with 900000 to a double is left out.
--
-- Not modelled: the expiry of Redis keys, a null title in the body of `updateNodeMeta`, logging, HTTP metrics, the admin interface of the gateway, the
-- decorators that validate request bodies, the connections that are opened at the start, and the client in
-- mock/, which only demonstrates the server.
pub mod Common
pub mod Infra
pub mod Ws
pub mod Edge
pub mod Workspace
pub mod Node
pub mod User
pub mod Auth
pub mod Yjs
pub mod Errors
pub mod Upload
pub mod Http
pub mod Samples
pub mod Tests
