-- ===== src/Ws/Sockets.antt =====
-- What ws/ws.gateway.ts calls of Socket.IO and of y-protocols, and everything that it runs on, with the
-- documented behaviour that the code relies on.
use aideep_backend.Common.{ℕ, String, ◌≡◌, Bool, true, false, Option, ◌==◌, ◌&&◌, if◌then◌else◌}
use aideep_backend.Auth.Tokens.{Tokens}
use aideep_backend.Infra.Platform.{Platform}
use aideep_backend.Yjs.Documents.{Documents}

-- the rooms of a server: a socket, by its id, is in any number of them
pub record Rooms : Type 1 where
  pub Store : Type 0
  pub has : Store → String → String → Bool
  -- `client.join(room)`, `client.leave(room)`
  pub join : Store → String → String → Store
  pub leave : Store → String → String → Store
  -- what Socket.IO does before it tells that a socket disconnected
  pub leave_all : Store → String → Store
  pub has_join :
      (s : Store) (socket room other q : String)
      → has (join s socket room) other q
        ≡ (if (socket == other) && (room == q) then true else has s other q)
  pub has_leave :
      (s : Store) (socket room other q : String)
      → has (leave s socket room) other q
        ≡ (if (socket == other) && (room == q) then false else has s other q)
  pub has_leave_all :
      (s : Store) (socket other q : String)
      → has (leave_all s socket) other q ≡ (if socket == other then false else has s other q)

-- what `readSyncMessage` returns, writes to its encoder, and leaves as the document
pub record SyncRead (Doc Bytes : Type 0) : Type 0 where
  pub message_type : ℕ
  pub reply : Option Bytes
  pub doc : Doc

pub record Wire (Y : Documents) : Type 1 where
  pub Bytes : Type 0
  -- `buffer.toString('base64')` and `Buffer.from(text, 'base64')`
  pub to_base64 : Bytes → String
  pub of_base64 : String → Bytes
  pub of_base64_to_base64 : (b : Bytes) → of_base64 (to_base64 b) ≡ b
  -- `writeSyncStep1`
  pub write_step1 : Y.Doc → Bytes
  -- `readSyncMessage`; on an unknown message type it throws
  pub read_sync : Bytes → Y.Doc → Option (SyncRead Y.Doc Bytes)

pub record Ports : Type 1 where
  pub platform : Platform
  pub tokens : Tokens
  pub documents : Documents
  pub rooms : Rooms
  pub wire : Wire documents
