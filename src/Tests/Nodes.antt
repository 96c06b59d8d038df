-- ===== src/Tests/Nodes.antt =====
-- node/node.service.ts and node/node.repository.ts on the sample board.
use aideep_backend.Common.{String, ◌≡◌, List, [], ◌∷◌, ◌↔◌, false, true, some, none, Memᴰ}
use aideep_backend.Infra.Rows.{text, project}
use aideep_backend.Infra.Rows.Int.{ℤ, pos}
use aideep_backend.Edge.Walk.{Link, link, Walk, HasEdge}
use aideep_backend.Node.Model.{MarkDownBody, CreateNodeBody}
use aideep_backend.Node.Descendants.{descendants}
use aideep_backend.Node.Descendants.Correct.{IsDistinct, descendants_correct}
use aideep_backend.Node.Service.{Node, NodeMoveBody, UpdateNodeMetaBody}
use aideep_backend.Tests.Graph.{one_edge-IsAcyclic}

abbrev pub to_the_right : NodeMoveBody ℤ
to_the_right = record { x = pos 100; y = pos 7 }

abbrev renamed : UpdateNodeMetaBody
renamed = record {
  title = some "new";
  color = none;
  text_color = none;
  propagate_to_children = false;
}

abbrev new_node : Node ℤ
new_node = record {
  user_id = "vic";
  input = record {
    title = "t";
    node_type = project;
    position_x = pos 0;
    position_y = pos 0;
    workspace_id = "w";
    depth = pos 0;
    content = [];
  };
}

abbrev loop : List Link
loop = link "a" "b" ∷ link "b" "a" ∷ []

descendants_correct_example :
    (ids : List String) × (descendants (link "a" "b" ∷ []) "a" ≡ some ids)
    × IsDistinct ids
    × ((v : String)
        → Memᴰ v ids
          ↔ ((u : String) × HasEdge (link "a" "b" ∷ []) "a" u × Walk (link "a" "b" ∷ []) u v))
descendants_correct_example = descendants_correct (link "a" "b" ∷ []) "a" one_edge-IsAcyclic

abbrev new_page : CreateNodeBody ℤ MarkDownBody
new_page = record {
  title = "page";
  position = record { x = pos 1; y = pos 2 };
  body = record { json_body = "{}"; markdown_body = "# page"; color = "red"; text_color = "black" };
}

abbrev all_red : UpdateNodeMetaBody
all_red = record {
  title = some "new";
  color = some (text "red");
  text_color = none;
  propagate_to_children = true;
}
