-- ===== src/Infra/Text.antt =====
-- How JavaScript tests a text that may be missing, and writes a number.
pub mod Digits
use Prim.Native.Nat.{◌/◌, ◌%◌}
use Prim.Native.String.{◌++◌ as ◌++ˢ◌}
use aideep_backend.Common.{
  ℕ, zero, suc, String, Option, none, some, List, [], ◌∷◌, ◌==◌, ltb, if◌then◌else◌,
}

-- `if (!text)` also holds of the empty text
abbrev pub truthy : Option String → Option String
truthy none = none
truthy (some s) = if s == "" then none else some s

abbrev pub entry : ℕ → List String → String
entry n [] = ""
entry zero (d ∷ ds) = d
entry (suc n) (d ∷ ds) = entry n ds

abbrev pub digit : ℕ → String
digit n = entry n ("0" ∷ "1" ∷ "2" ∷ "3" ∷ "4" ∷ "5" ∷ "6" ∷ "7" ∷ "8" ∷ "9" ∷ [])

-- the last `fuel` digits
abbrev pub digits : ℕ → ℕ → String
digits zero n = ""
digits (suc fuel) n =
    let front = digits fuel (n / 10) in if ltb n 10 then digit n else front ++ˢ digit (n % 10)

-- `toString()` of a whole number; a number below 2 ^ 53 has at most 16 digits
unfoldable pub to_string : ℕ → String
to_string n = digits 16 n
