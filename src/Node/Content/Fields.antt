-- ===== src/Node/Content/Fields.antt =====
-- The fields of a node's `content` behind a change of its colours (node/node.service.ts).
use aideep_backend.Common.{
  String, ◌≡◌, refl, ◌∙◌, ap, sym, eq-cases, inl, inr, false, Option, none, some, [], ◌∷◌, ◌==◌,
  eq_iff, arith, if◌then◌else◌,
}
use aideep_backend.Infra.Rows.{Json, Json, Content}
use aideep_backend.Node.Content.{set_field, get_field, set_given, spread, recolour}

get_field-set_field :
    (name key : String) (value : Json) (content : Content)
    → get_field name (set_field key value content)
      ≡ (if key == name then some value else get_field name content)
unfolding set_field get_field
get_field-set_field name key value [] = ground arith
get_field-set_field name key value ((k, v) ∷ content) = ground (
  arith,
  eq_iff k key,
  eq_iff k name,
  eq_iff key name,
  get_field-set_field name key value content,
)

-- the value of a request where it gives one, else the old field
abbrev pub given_or : Option Json → Option Json → Option Json
given_or none old = old
given_or (some value) old = some value

get_field-set_given :
    (name key : String) (given : Option Json) (content : Content)
    → get_field name (set_given key given content)
      ≡ (if key == name then given_or given (get_field name content) else get_field name content)
get_field-set_given name key none content = ground arith
get_field-set_given name key (some value) content = get_field-set_field name key value content

-- A change of colours sets "color" and "textColor" to the values that the request gives, keeps each of the two that it does not give, and keeps every other field of the content; a node without content counts as one without fields.
pub get_field-recolour :
    (name : String) (color text_color : Option Json) (content : Option Content)
    → get_field name (recolour color text_color content) ≡ (
        if "textColor" == name
        then given_or text_color (get_field name (spread content))
        else if "color" == name
        then given_or color (get_field name (spread content))
        else get_field name (spread content))
unfolding recolour
get_field-recolour name color text_color content =
    get_field-set_given name "textColor" text_color (set_given "color" color (spread content))
    ∙ elim (eq-cases "textColor" name) [
      | inl (t, e) ↦
          let unlike : ("color" == name) ≡ false = ap (λ (n : String). "color" == n) (sym e) in
          rw t (
            ap (given_or text_color)
              (get_field-set_given name "color" color (spread content) ∙ rw unlike refl))
      | inr (f, _) ↦ rw f (get_field-set_given name "color" color (spread content))
    ]
