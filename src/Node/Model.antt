-- ===== src/Node/Model.antt =====
-- node/node.model.ts: validation, and the factories that turn a request body (node/dto/createNode.dto.ts)
-- into a node.
use Prim.Native.Char.{Char, len_utf8}
use aideep_backend.Common.{
  chars, ℕ, ◌+◌, ◌≤◌, String, ◌≡◌, ◌↔◌, true, ◌||◌, not, List, [], ◌∷◌, ltb, arith, if◌then◌else◌,
}
use aideep_backend.Infra.Exception.{Exception, bad_request}
use aideep_backend.Infra.Action.{Outcome, returned, thrown}
use aideep_backend.Infra.Platform.{Platform}
use aideep_backend.Infra.Rows.{text, Content, NodeType, project, data_node}
use aideep_backend.Infra.Rows.Int.{pos}
use aideep_backend.Node.Service.{Node}

abbrev pub max_title_length : ℕ
max_title_length = 500

-- `s.length` counts UTF-16 units: two for a character of four bytes in UTF-8
abbrev units : ℕ → ℕ
units bytes = if ltb 3 bytes then 2 else 1

abbrev count_units : List Char → ℕ
count_units [] = 0
count_units (c ∷ cs) = units (len_utf8 c) + count_units cs

abbrev pub js_length : String → ℕ
js_length s = count_units (chars s)

pub record PositionDto (Num : Type 0) : Type 0 where
  pub x : Num
  pub y : Num

pub record ProjectBody : Type 0 where
  pub color : String
  pub text_color : String

pub record MarkDownBody : Type 0 where
  pub json_body : String
  pub markdown_body : String
  pub color : String
  pub text_color : String

-- `CreateProjectNodeBody` and `CreateMarkDownNodeBody`, which differ in their `body`
pub record CreateNodeBody (Num Body : Type 0) : Type 0 where
  pub title : String
  pub position : PositionDto Num
  pub body : Body

abbrev pub project_data : ProjectBody → Content
project_data body =
    ("dataType", text "PROJECT")
    ∷ ("color", text body.color)
    ∷ ("textColor", text body.text_color)
    ∷ []

abbrev pub markdown_data : MarkDownBody → Content
markdown_data body =
    ("dataType", text "MARKDOWN")
    ∷ ("markdownBody", text body.markdown_body)
    ∷ ("jsonBody", text body.json_body)
    ∷ ("color", text body.color)
    ∷ ("textColor", text body.text_color)
    ∷ []

abbrev pub title_too_long : Exception
title_too_long = bad_request "title은 500자를 초과할 수 없습니다."

abbrev pub bad_position : Exception
bad_position = bad_request "position 값이 유효하지 않습니다. (NaN, Infinity 불가)"

module _ (P : Platform) where
  -- `validateTitle` and `validatePosition`, and then the node
  abbrev pub validated : {A : Type 0} → String → PositionDto P.Num → A → Outcome A
  validated title position node =
      if ltb max_title_length (js_length title)
      then thrown title_too_long
      else if not (P.is_finite position.x) || not (P.is_finite position.y)
      then thrown bad_position
      else returned node

  abbrev pub node_of :
      {Body : Type 0}
      → CreateNodeBody P.Num Body
      → NodeType
      → Content
      → String
      → String
      → Node P.Num
  node_of dto kind data_of workspace_id user_id = record {
    user_id = user_id;
    input = record {
      title = dto.title;
      node_type = kind;
      position_x = dto.position.x;
      position_y = dto.position.y;
      workspace_id = workspace_id;
      depth = pos 0;
      content = data_of;
    };
  }

  unfoldable pub from_project_dto :
      CreateNodeBody P.Num ProjectBody → String → String → Outcome (Node P.Num)
  from_project_dto dto workspace_id user_id =
      validated dto.title dto.position
        (node_of dto project (project_data dto.body) workspace_id user_id)

  unfoldable pub from_mark_down_dto :
      CreateNodeBody P.Num MarkDownBody → String → String → Outcome (Node P.Num)
  from_mark_down_dto dto workspace_id user_id =
      validated dto.title dto.position
        (node_of dto data_node (markdown_data dto.body) workspace_id user_id)

  -- the node of a valid body is made by the user, in the workspace
  pub from_project_dto-made :
      (dto : CreateNodeBody P.Num ProjectBody) (workspace_id user_id : String) (n : Node P.Num)
      → from_project_dto dto workspace_id user_id ≡ returned n
      → (n.user_id ≡ user_id) × (n.workspace_id ≡ workspace_id)
  unfolding from_project_dto
  from_project_dto-made dto workspace_id user_id n h = ground (arith, h)

  pub from_mark_down_dto-made :
      (dto : CreateNodeBody P.Num MarkDownBody) (workspace_id user_id : String) (n : Node P.Num)
      → from_mark_down_dto dto workspace_id user_id ≡ returned n
      → (n.user_id ≡ user_id) × (n.workspace_id ≡ workspace_id)
  unfolding from_mark_down_dto
  from_mark_down_dto-made dto workspace_id user_id n h = ground (arith, h)

  -- a title and a position that a node may have
  pub record IsValid (title : String) (position : PositionDto P.Num) : Type 0 where
    pub short : js_length title ≤ max_title_length
    pub finite_x : P.is_finite position.x ≡ true
    pub finite_y : P.is_finite position.y ≡ true

  module _ (dto : CreateNodeBody P.Num MarkDownBody) (workspace_id user_id : String) where
    -- A markdown node is made from exactly the bodies whose title has at most 500 UTF-16 units and whose coordinates are both finite.
    pub from_mark_down_dto-IsValid :
        ((node : Node P.Num) × (from_mark_down_dto dto workspace_id user_id ≡ returned node))
        ↔ IsValid dto.title dto.position
    unfolding from_mark_down_dto
    from_mark_down_dto-IsValid = (
      λ (node, e). record {
        short = ground arith;
        finite_x = ground arith;
        finite_y = ground arith;
      },
      λ v. (
        node_of dto data_node (markdown_data dto.body) workspace_id user_id,
        ground (arith, v.short, v.finite_x, v.finite_y),
      ),
    )
