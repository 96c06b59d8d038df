-- ===== src/Samples/Codec.antt =====
-- The texts of the sample platform: tokens, and the JSON of the objects kept in Redis.
use aideep_backend.Common.{ℕ, zero, suc, String, ◌≡◌, refl, eq_refl, Bool, true, false, ◌==◌}
use aideep_backend.Auth.Tokens.{Tokens, Payload, AuthCode}
use aideep_backend.Infra.Codec.{Codec}
use aideep_backend.Infra.Rows.{
  Json, text, raw, Content, NodeRow, EdgeRow, NodeType, project, data_node, resource, Role, owner,
  editor, viewer,
}
use aideep_backend.Infra.Rows.Int.{ℤ, pos, negsuc}
use aideep_backend.Samples.Coding.{
  Coding, through, a_text, a_number, a_pair, an_option, a_list, codec,
}
use aideep_backend.Workspace.Service.{WorkspaceInfo, Invitation}

abbrev flag : Bool → ℕ
flag false = 0
flag true = 1

abbrev is_set : ℕ → Bool
is_set zero = false
is_set (suc _) = true

pub is_set-flag : (b : Bool) → is_set (flag b) ≡ b
is_set-flag true = refl
is_set-flag false = refl

abbrev rank : Role → ℕ
rank owner = 0
rank editor = 1
rank viewer = 2

abbrev of_rank : ℕ → Role
of_rank zero = owner
of_rank (suc zero) = editor
of_rank (suc (suc _)) = viewer

pub of_rank-rank : (r : Role) → of_rank (rank r) ≡ r
of_rank-rank owner = refl
of_rank-rank editor = refl
of_rank-rank viewer = refl

abbrev kind : NodeType → ℕ
kind project = 0
kind data_node = 1
kind resource = 2

abbrev of_kind : ℕ → NodeType
of_kind zero = project
of_kind (suc zero) = data_node
of_kind (suc (suc _)) = resource

pub of_kind-kind : (t : NodeType) → of_kind (kind t) ≡ t
of_kind-kind project = refl
of_kind-kind data_node = refl
of_kind-kind resource = refl

abbrev signed : ℤ → Bool × ℕ
signed (pos n) = (true, n)
signed (negsuc n) = (false, n)

abbrev of_signed : Bool × ℕ → ℤ
of_signed (true, n) = pos n
of_signed (false, n) = negsuc n

pub of_signed-signed : (z : ℤ) → of_signed (signed z) ≡ z
of_signed-signed (pos n) = refl
of_signed-signed (negsuc n) = refl

abbrev tagged : Json → Bool × String
tagged (text s) = (true, s)
tagged (raw s) = (false, s)

abbrev of_tagged : Bool × String → Json
of_tagged (true, s) = text s
of_tagged (false, s) = raw s

pub of_tagged-tagged : (j : Json) → of_tagged (tagged j) ≡ j
of_tagged-tagged (text s) = refl
of_tagged-tagged (raw s) = refl

abbrev a_bool : Coding Bool
a_bool = through flag is_set is_set-flag a_number

abbrev an_integer : Coding ℤ
an_integer = through signed of_signed of_signed-signed (a_pair a_bool a_number)

abbrev a_content : Coding Content
a_content =
    a_list (a_pair a_text (through tagged of_tagged of_tagged-tagged (a_pair a_bool a_text)))

abbrev a_node : Coding (NodeRow ℤ)
a_node =
    through
      (λ r. (
        (
          ((r.node_id, r.title), (r.node_type, r.content)),
          ((r.version, r.created_at), (r.updated_at, r.deleted_at)),
        ),
        ((r.position_x, r.position_y), (r.workspace_id, r.depth)),
      ))
      (λ f. record {
        node_id = f.0.0.0.0;
        title = f.0.0.0.1;
        node_type = f.0.0.1.0;
        content = f.0.0.1.1;
        version = f.0.1.0.0;
        created_at = f.0.1.0.1;
        updated_at = f.0.1.1.0;
        deleted_at = f.0.1.1.1;
        position_x = f.1.0.0;
        position_y = f.1.0.1;
        workspace_id = f.1.1.0;
        depth = f.1.1.1;
      })
      (λ r. refl)
      (a_pair
        (a_pair
          (a_pair (a_pair a_text a_text)
            (a_pair (through kind of_kind of_kind-kind a_number) (an_option a_content)))
          (a_pair (a_pair a_number a_number) (a_pair a_number (an_option a_number))))
        (a_pair (a_pair (an_option an_integer) (an_option an_integer))
          (a_pair a_text (an_option an_integer))))

abbrev an_edge : Coding EdgeRow
an_edge =
    through
      (λ r. (
        ((r.edge_id, r.workspace_id), (r.source_id, r.target_id)),
        (
          ((r.source_handle, r.target_handle), (r.version, r.created_at)),
          (r.updated_at, r.deleted_at),
        ),
      ))
      (λ f. record {
        edge_id = f.0.0.0;
        workspace_id = f.0.0.1;
        source_id = f.0.1.0;
        target_id = f.0.1.1;
        source_handle = f.1.0.0.0;
        target_handle = f.1.0.0.1;
        version = f.1.0.1.0;
        created_at = f.1.0.1.1;
        updated_at = f.1.1.0;
        deleted_at = f.1.1.1;
      })
      (λ r. refl)
      (a_pair (a_pair (a_pair a_text a_text) (a_pair a_text a_text)) (
        a_pair (a_pair (a_pair a_text a_text) (a_pair a_number a_number))
          (a_pair a_number (an_option a_number))))

abbrev pub views : Codec (WorkspaceInfo ℤ)
views = codec (
    through (λ v. (v.nodes, v.edges)) (λ f. record { nodes = f.0; edges = f.1 }) (λ v. refl)
      (a_pair (a_list a_node) (a_list an_edge)))

abbrev pub invitations : Codec Invitation
invitations = codec (
    through (λ i. (i.code, i.role)) (λ f. record { code = f.0; role = f.1 }) (λ i. refl)
      (a_pair a_text (through rank of_rank of_rank-rank a_number)))

abbrev codes : Codec AuthCode
codes = codec (
    through (λ c. (c.code, (c.attempts, c.generated_at)))
      (λ f. record { code = f.0; attempts = f.1.0; generated_at = f.1.1 }) (λ c. refl)
      (a_pair a_text (a_pair a_number a_number)))

abbrev pub payloads : Codec Payload
payloads = codec (
    through (λ p. ((p.user_name, p.email), (p.user_id, p.is_master)))
      (λ f. record { user_name = f.0.0; email = f.0.1; user_id = f.1.0; is_master = f.1.1 })
      (λ p. refl) (a_pair (a_pair a_text a_text) (a_pair a_text a_bool)))

-- a token is the text of its payload, and a password is its own hash
abbrev pub tokens : Tokens
tokens = record {
  sign = λ p life now. payloads.encode p;
  verify = λ token now. payloads.decode token;
  verify_sign = λ p life now. payloads.decode_encode p;
  sign_nonempty = λ p life now. payloads.encode_nonempty p;
  compare = λ password hash. password == hash;
  hash = λ password. password;
  compare_hash = eq_refl;
  encode = codes.encode;
  decode = codes.decode;
  decode_encode = codes.decode_encode;
  encode_nonempty = codes.encode_nonempty;
}
