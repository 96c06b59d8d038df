-- ===== src/Samples/Sockets.antt =====
-- A server whose rooms are a function, whose bytes are texts, and a gateway on it.
use aideep_backend.Common.{
  String, Bool, true, false, refl, Option, none, some, List, [], ◌∷◌, ◌++◌, ◌==◌, ◌&&◌,
  if◌then◌else◌,
}
use aideep_backend.Samples.Codec.{tokens}
use aideep_backend.Samples.Docs.{lists, idle_manager}
use aideep_backend.Samples.Tables.{sample}
use aideep_backend.Samples.Worlds.{board}
use aideep_backend.Ws.Gateway.State.{Gateway, SocketData}
use aideep_backend.Ws.Sockets.{Rooms, SyncRead, Wire, Ports}

abbrev pub function_rooms : Rooms
function_rooms = record {
  Store = String → String → Bool;
  has = λ s socket room. s socket room;
  join = λ s socket room other q. if (socket == other) && (room == q) then true else s other q;
  leave = λ s socket room other q. if (socket == other) && (room == q) then false else s other q;
  leave_all = λ s socket other q. if socket == other then false else s other q;
  has_join = λ s socket room other q. refl;
  has_leave = λ s socket room other q. refl;
  has_leave_all = λ s socket other q. refl;
}

abbrev pub read_text : String → List String → Option (SyncRead (List String) String)
read_text bytes doc =
    if bytes == ""
    then none
    else some (record { message_type = 2; reply = none; doc = doc ++ bytes ∷ [] })

abbrev pub text_wire : Wire lists
text_wire = record {
  Bytes = String;
  to_base64 = λ b. b;
  of_base64 = λ t. t;
  of_base64_to_base64 = λ b. refl;
  write_step1 = λ d. "state";
  read_sync = read_text;
}

abbrev pub ports : Ports
ports = record {
  platform = sample;
  tokens = tokens;
  documents = lists;
  rooms = function_rooms;
  wire = text_wire;
}

-- nobody is connected
abbrev pub quiet : Gateway ports
quiet = record {
  world = board;
  manager = idle_manager;
  rooms = λ socket room. false;
  sockets = [];
  yjs_rooms = [];
  increments = 0;
  decrements = 0;
  closing = [];
  emitted = [];
}

abbrev pub user_data : String → List (String × Bool) → SocketData
user_data user_id read_only = record {
  user_id = some user_id;
  workspace_id = some "w";
  membership_cache = [];
  yjs_read_only = read_only;
}

-- a socket of each of two members, and one of a user who is none
abbrev pub busy : Gateway ports
busy = record quiet {
  sockets =
      ("s", user_data "eve" [])
      ∷ ("v", user_data "vic" (("n", true) ∷ []))
      ∷ ("x", user_data "mallory" [])
      ∷ [];
  increments = 3;
}
