-- ===== src/Yjs/Documents.antt =====
-- What the code calls of Yjs, with the documented behaviour that it relies on.
use aideep_backend.Common.{String, ◌≡◌}

pub record Documents : Type 1 where
  pub Doc : Type 0
  pub Update : Type 0
  -- `new Y.Doc()`
  pub empty : Doc
  -- `Y.applyUpdate(doc, update)`
  pub apply : Doc → Update → Doc
  -- `Y.encodeStateAsUpdate(doc)`, which is the whole document
  pub encode : Doc → Update
  pub apply_encode : (d : Doc) → apply empty (encode d) ≡ d
  -- `doc.get('root', Y.XmlText)`: its text, and a new document with that text inserted
  pub to_text : Doc → String
  pub of_text : String → Doc
