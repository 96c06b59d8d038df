-- ===== src/Infra/Codec.antt =====
-- `JSON.stringify` and `JSON.parse` on the values of one type: what was written is read again, and no
-- text of an object is empty. (A date stands for its ISO text, as which it is read.)
use aideep_backend.Common.{String, ◌≡◌, false, Option, some, ◌==◌}

pub record Codec (A : Type 0) : Type 0 where
  pub encode : A → String
  pub decode : String → Option A
  pub decode_encode : (a : A) → decode (encode a) ≡ some a
  pub encode_nonempty : (a : A) → (encode a == "") ≡ false
