-- ===== src/Samples/Worlds.antt =====
-- States of the sample platform on which the tests run.
use aideep_backend.Common.{ℕ, String, false, none, some, [], ◌∷◌}
use aideep_backend.Infra.Rows.{
  NodeRow, EdgeRow, MemberRow, NodeType, project, data_node, Role, owner, editor, viewer,
}
use aideep_backend.Infra.Rows.Int.{ℤ, pos}
use aideep_backend.Infra.World.{World}
use aideep_backend.Samples.Tables.{sample}

abbrev pub node_at : String → NodeType → ℕ → ℕ → NodeRow ℤ
node_at id kind x depth = record {
  node_id = id;
  title = id;
  node_type = kind;
  content = none;
  version = 1;
  created_at = 0;
  updated_at = 0;
  deleted_at = none;
  position_x = some (pos x);
  position_y = some (pos 0);
  workspace_id = "w";
  depth = some (pos depth);
}

abbrev pub edge_from : String → String → String → EdgeRow
edge_from id a b = record {
  edge_id = id;
  workspace_id = "w";
  source_id = a;
  target_id = b;
  source_handle = "right";
  target_handle = "left";
  version = 1;
  created_at = 0;
  updated_at = 0;
  deleted_at = none;
}

abbrev pub member : String → Role → MemberRow
member user role = record { user_id = user; workspace_id = "w"; role = role }

-- one workspace: a project "p", two data nodes "a" → "b", and a third, "c"
abbrev pub board : World sample
board = record {
  nodes =
      node_at "p" project 0 0
      ∷ node_at "a" data_node 10 0
      ∷ node_at "b" data_node 20 1
      ∷ node_at "c" data_node 30 0
      ∷ [];
  edges = edge_from "ab" "a" "b" ∷ [];
  members = member "olga" owner ∷ member "eve" editor ∷ member "vic" viewer ∷ [];
  workspaces = record { workspace_id = "w"; title = "board" } ∷ [];
  users =
      record {
        user_id = "olga";
        email = "olga@example.org";
        password = "#1";
        username = "Olga";
        created_at = 0;
      }
      ∷ [];
  redis = λ k. none;
  outages = [];
  now = 1000;
  draws = 234747628576895 ∷ 5547644108985869 ∷ [];
  mails = [];
  sent = [];
  in_transaction = false;
}
