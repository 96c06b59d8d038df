-- ===== src/Node/Content.antt =====
-- The `content` object of a node, as node/node.service.ts spreads it.
pub mod Fields
use aideep_backend.Common.{String, Option, none, some, [], ◌∷◌, ◌==◌, if◌then◌else◌}
use aideep_backend.Infra.Rows.{Json, text, Content}

-- `{ ...content, [name]: value }`
unfoldable pub set_field : String → Json → Content → Content
set_field name value [] = (name, value) ∷ []
set_field name value ((k, v) ∷ content) =
    if k == name then (k, value) ∷ content else (k, v) ∷ set_field name value content

unfoldable pub get_field : String → Content → Option Json
get_field name [] = none
get_field name ((k, v) ∷ content) = if k == name then some v else get_field name content

-- `...(value !== undefined && { [name]: value })`
abbrev pub set_given : String → Option Json → Content → Content
set_given name none content = content
set_given name (some value) content = set_field name value content

-- a spread of null adds no field
abbrev pub spread : Option Content → Content
spread none = []
spread (some content) = content

-- `{ ...content, ...(color !== undefined && { color }), ...(textColor !== undefined && { textColor }) }`
unfoldable pub recolour : Option Json → Option Json → Option Content → Content
recolour color text_color content =
    set_given "textColor" text_color (set_given "color" color (spread content))
