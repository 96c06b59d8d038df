-- ===== src/Samples/Tables.antt =====
-- Tables that are lists of rows, and a Redis that is a function from keys to values.
use Prim.Native.Char.{Char, code}
use aideep_backend.Common.{
  eqb, chars, text_of, String, refl, true, not, Option, none, some, List, [], ◌∷◌, ◌++◌, map, any,
  keep, IsKeyed-keep, ◌==◌, if◌then◌else◌,
}
use aideep_backend.Infra.Platform.{
  Numbers, NodeInput, EdgeInput, WorkspaceInput, UserInput, HoldsNode, HoldsEdge, Platform,
}
use aideep_backend.Infra.Redis.{Redis}
use aideep_backend.Infra.Rows.{NodeRow, EdgeRow, WorkspaceRow, UserRow}
use aideep_backend.Infra.Rows.Int.{ℤ, pos, negate, ◌+ℤ◌}
use aideep_backend.Infra.Table.{Table}
use aideep_backend.Samples.Lists.{find, find-none, find-some, mem-keep_iff}

abbrev pub list_table :
    {Input Row : Type 0} {Holds : Input → Row → Type 0} (make : List Row → Input → Row)
    → ((rows : List Row) (i : Input) → Holds i (make rows i))
    → Table Input Row Holds
list_table {Row} make held = record {
  Store = List Row;
  rows = λ rows. rows;
  find_first = λ rows p. find p rows;
  find_many = λ rows p. keep p rows;
  create = λ rows i. (make rows i, rows ++ make rows i ∷ []);
  update = λ rows p f. if any p rows then some (map (λ r. if p r then f r else r) rows) else none;
  update_many = λ rows p f. map (λ r. if p r then f r else r) rows;
  delete = λ rows p. if any p rows then some (keep (λ r. not (p r)) rows) else none;
  delete_many = λ rows p. keep (λ r. not (p r)) rows;
  roll_back = λ before after. before;
  roll_back_start = λ before after. refl;
  find_first_none = λ rows p. find-none p rows;
  find_first_some = λ rows p. find-some p rows;
  find_many_mem = λ rows p. mem-keep_iff p rows;
  find_many_once = λ rows p key. IsKeyed-keep key p rows;
  create_holds = held;
  create_rows = λ rows i. refl;
  update_many_rows = λ rows p f. refl;
  update_one = λ rows p f. refl;
  delete_many_rows = λ rows p. refl;
  delete_one = λ rows p. refl;
}

-- a fresh id: longer than any that came before it
abbrev pub fresh_id : {A : Type 0} → List A → String
fresh_id [] = "0"
fresh_id (_ ∷ xs) = Prim.Native.String.◌++◌ "0" (fresh_id xs)

abbrev pub make_node : List (NodeRow ℤ) → NodeInput ℤ → NodeRow ℤ
make_node rows i = record {
  node_id = fresh_id rows;
  title = i.title;
  node_type = i.node_type;
  content = some i.content;
  version = 1;
  created_at = 0;
  updated_at = 0;
  deleted_at = none;
  position_x = some i.position_x;
  position_y = some i.position_y;
  workspace_id = i.workspace_id;
  depth = some i.depth;
}

-- a letter of a uuid in lower case
abbrev lower_letter : Char → Char
lower_letter c =
    if eqb (code c) 65
    then "a"
    else if eqb (code c) 66
    then "b"
    else if eqb (code c) 67
    then "c"
    else if eqb (code c) 68
    then "d"
    else if eqb (code c) 69
    then "e"
    else if eqb (code c) 70
    then "f"
    else c

abbrev lower : String → String
lower text = text_of (map lower_letter (chars text))

-- a database that takes any text for an id
abbrev pub uuid : String → Option String
uuid text = some (lower text)

abbrev pub make_edge : List EdgeRow → EdgeInput → EdgeRow
make_edge rows i = record {
  edge_id = fresh_id rows;
  workspace_id = lower i.workspace_id;
  source_id = lower i.source_id;
  target_id = lower i.target_id;
  source_handle = i.source_handle;
  target_handle = i.target_handle;
  version = 1;
  created_at = 0;
  updated_at = 0;
  deleted_at = none;
}

pub node_held : (rows : List (NodeRow ℤ)) (i : NodeInput ℤ) → HoldsNode i (make_node rows i)
node_held rows i = record {
  title = refl;
  node_type = refl;
  position_x = refl;
  position_y = refl;
  workspace_id = refl;
  depth = refl;
  content = refl;
  live = refl;
}

pub edge_held : (rows : List EdgeRow) (i : EdgeInput) → HoldsEdge uuid i (make_edge rows i)
edge_held rows i = record {
  source_id = λ id e. cc e;
  target_id = λ id e. cc e;
  workspace_id = λ id e. cc e;
  source_handle = refl;
  target_handle = refl;
  live = refl;
}

abbrev pub make_workspace : List WorkspaceRow → WorkspaceInput → WorkspaceRow
make_workspace rows i = record { workspace_id = fresh_id rows; title = i.title }

abbrev pub make_user : List UserRow → UserInput → UserRow
make_user rows i = record {
  user_id = fresh_id rows;
  email = i.email;
  password = i.password;
  username = i.username;
  created_at = 0;
}

abbrev pub map_redis : Redis
map_redis = record {
  Store = String → Option String;
  get = λ s k. s k;
  set = λ s k v e j. if k == j then some v else s j;
  del = λ s k j. if k == j then none else s j;
  get_set = λ s k v e j. refl;
  get_del = λ s k j. refl;
}

abbrev pub integers : Numbers
integers = record {
  Num = ℤ;
  zero_num = pos 0;
  plus = λ a b. a +ℤ b;
  minus = λ a b. a +ℤ negate b;
  is_finite = λ a. true;
}

abbrev pub sample : Platform
sample = record {
  numbers = integers;
  to_date_string = λ t. "Thu Jan 01 1970";
  nodes = list_table make_node node_held;
  uuid = uuid;
  edges = list_table make_edge edge_held;
  members = list_table (λ rows i. i) (λ rows i. refl);
  workspaces = list_table make_workspace (λ rows i. record { title = refl });
  users =
      list_table make_user (λ rows i. record { email = refl; password = refl; username = refl });
  redis = map_redis;
}
